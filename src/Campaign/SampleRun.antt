-- ===== src/Campaign/SampleRun.antt =====
-- A run that succeeded, event by event, and its ledger.
use guildmind.Common.{
  ℕ, String, List, [], ◌∷◌, true, false, Option, none, some, ok, err, Error, concat, eqb, ◌==◌,
  if◌then◌else◌, or_raise, map,
}
use guildmind.Domain.Float.{tick_float}
use guildmind.Domain.Json.{pos, null, integer, text, object, Fields, end, field}
use guildmind.Domain.Usage.{BudgetUsage, no_usage}
use guildmind.Domain.Limits.{BudgetLimits}
use guildmind.Domain.Samples.{usage_to_json, limits_to_json}
use guildmind.Domain.Status.{pending, running, succeeded, value}
use guildmind.Domain.Event.{ArtifactRef, EventRecord, Canonical}
use guildmind.Domain.Manifest.{RunManifest}
use guildmind.Store.Tables.{Ledger, EventRow, ManifestRow, find}
use guildmind.Store.Wire.{Wire}
use guildmind.Store.Manifests.{manifest_creation_payload}

abbrev pub zeros : String
zeros = "0000000000000000000000000000000000000000000000000000000000000000"

-- Records are told apart by their IDs, and every hash is the same.
instance abbrev pub zero_canonical : Canonical ℕ
zero_canonical = record {
  event_json = λ e. e.event_id;
  payload_json = λ _. "payload";
  sha256_hex = λ _. zeros;
}

abbrev pub one_call : BudgetUsage ℕ
one_call = record no_usage { output_tokens = 20; reasoning_tokens = 5; model_calls = 1 }

abbrev pub caps : BudgetLimits ℕ
caps = record {
  max_input_tokens = none;
  max_output_tokens = none;
  max_total_tokens = none;
  max_model_calls = some 1;
  max_model_retries = some 0;
  max_tool_calls = none;
  max_tool_cpu_seconds = none;
  max_container_wall_seconds = none;
  max_elapsed_seconds = none;
  max_estimated_cost_usd = none;
}

abbrev stored : ArtifactRef
stored = record {
  media_type = "text/plain";
  size_bytes = 7;
  sha256 = zeros;
  storage_ref = concat "sha256/00/" zeros;
}

abbrev waiting : RunManifest ℕ
waiting = record {
  run_id = "a0";
  experiment_id = "ex";
  task_id = "fa";
  candidate_id = "ca";
  genome_hash = none;
  requested_model = "m";
  returned_model = none;
  model_parameters = end;
  seed = 7;
  environment_digest = concat "sha256:" zeros;
  code_revision = "source-sha256:s";
  budget_limits = caps;
  status = pending;
  created_at = 5;
  started_at = none;
  finished_at = none;
  terminal_reason = none;
  artifacts = [];
}

abbrev begun : RunManifest ℕ
begun = record waiting { status = running; started_at = some 6 }

abbrev done : RunManifest ℕ
done = record begun {
  status = succeeded;
  finished_at = some 9;
  returned_model = some "m";
  artifacts =
      ("task_spec", stored)
      ∷ ("patch", stored)
      ∷ ("evaluation_stdout", stored)
      ∷ ("evaluation_stderr", stored)
      ∷ ("evaluation", stored)
      ∷ [];
}

abbrev event : ℕ → String → List String → Option String → String → Fields ℕ → EventRecord ℕ
event n id parents previous kind p = record {
  event_id = id;
  run_id = "a0";
  sequence = n;
  causal_parent_ids = parents;
  event_type = kind;
  monotonic_ns = n;
  occurred_at = n;
  payload = p;
  payload_sha256 = zeros;
  previous_event_hash = previous;
}

abbrev linked : ℕ → String → String → String → Fields ℕ → EventRecord ℕ
linked n parent id kind p = event n id (parent ∷ []) (some zeros) kind p

abbrev snapshot : BudgetUsage ℕ → BudgetUsage ℕ → Fields ℕ
snapshot used reserved =
    field "used" (object (usage_to_json used))
      (field "reserved" (object (usage_to_json reserved)) end)

abbrev bound : String → Fields ℕ
bound name = field "name" (text name) (
    field "media_type" (text "text/plain") (
      field "sha256" (text zeros) (
        field "size_bytes" (integer (pos 7))
          (field "storage_ref" (text (concat "sha256/00/" zeros)) end))))

-- The events of the run.
abbrev pub records : List (EventRecord ℕ)
unfolding manifest_creation_payload
records =
    event 0 "e0" [] none "run.created" (manifest_creation_payload limits_to_json waiting)
    ∷ linked 1 "e0" "e1" "run.started" (field "requested_model" (text "m") end)
    ∷ linked 2 "e1" "e2" "artifact.recorded" (bound "task_spec")
    ∷ linked 3 "e2" "e3" "model.request_started"
        (field "request_id" (text "q") (field "maximum" (object (usage_to_json one_call)) end))
    ∷ linked 4 "e3" "e4" "budget.snapshot" (snapshot no_usage one_call)
    ∷ linked 5 "e4" "e5" "model.response_completed" (
        field "request_id" (text "q") (
          field "actual" (object (usage_to_json one_call)) (field "returned_model" (text "m") end)))
    ∷ linked 6 "e5" "e6" "budget.snapshot" (snapshot one_call no_usage)
    ∷ linked 7 "e6" "e7" "artifact.recorded" (bound "patch")
    ∷ linked 8 "e7" "e8" "artifact.recorded" (bound "evaluation_stdout")
    ∷ linked 9 "e8" "e9" "artifact.recorded" (bound "evaluation_stderr")
    ∷ linked 10 "e9" "e10" "artifact.recorded" (bound "evaluation")
    ∷ linked 11 "e10" "e11" "evaluation.completed"
        (field "outcome" (text "passed") (field "result_sha256" (text zeros) end))
    ∷ linked 12 "e11" "e12" "run.terminal" (
        field "status" (text "succeeded")
          (field "evaluation_outcome" (text "passed") (field "terminal_reason" null end)))
    ∷ []

abbrev row_of : EventRecord ℕ → EventRow
row_of e = record {
  run_id = e.run_id;
  sequence = e.sequence;
  event_id = e.event_id;
  event_type = e.event_type;
  record_json = e.event_id;
  event_hash = zeros;
}

abbrev revision_of : ℕ → String → ManifestRow
revision_of n status = record {
  run_id = "a0";
  revision = n;
  manifest_json = status;
  manifest_sha256 = zeros;
}

abbrev pub done_ledger : Ledger
done_ledger = record {
  runs =
      record {
        run_id = "a0";
        status = "succeeded";
        manifest_revision = 2;
        manifest_json = "succeeded";
        manifest_sha256 = zeros;
      }
      ∷ [];
  run_manifests =
      revision_of 0 "pending" ∷ revision_of 1 "running" ∷ revision_of 2 "succeeded" ∷ [];
  events = map row_of records;
  budget_state =
      record { run_id = "a0"; limits_json = "caps"; used_json = "one"; reserved_json = "none" }
      ∷ [];
  ticks = 13;
}

abbrev pub run_wire : Wire ℕ
run_wire = record {
  manifest_json = λ m. value m.status;
  read_manifest = λ s.
      if s == "pending"
      then ok waiting
      else if s == "running"
      then ok begun
      else if s == "succeeded"
      then ok done
      else err Error.validation_error;
  read_event =
      λ s. or_raise (find (λ (e : EventRecord ℕ). e.event_id == s) records) Error.validation_error;
  limits_json = λ _. "caps";
  read_limits = λ _. ok caps;
  usage_json = λ u. if eqb u.model_calls 1 then "one" else "none";
  read_usage = λ s. if s == "one" then ok one_call else ok no_usage;
  roots_json = λ _. "roots";
  usage_payload = usage_to_json;
  limits_payload = limits_to_json;
  same_json = λ _ _. true;
  decimal_08 = λ n. "0";
  stamp = λ n. record { occurred_at = n; monotonic_ns = n };
  before = λ _ _. false;
  inspect_path = λ _. ok tt;
  inspect_schema = λ _. ok tt;
  inspect_sqlite = λ _. ok tt;
}
