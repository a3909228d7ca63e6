-- ===== src/Store/Samples.antt =====
-- A ledger of one run over whole ticks, with records printed as their IDs.
use guildmind.Common.{
  ℕ, String, List, [], ◌∷◌, true, false, Option, none, some, ok, err, Error, concat, eqb, ◌==◌,
  if◌then◌else◌, or_raise,
}
use guildmind.Domain.Float.{tick_float}
use guildmind.Domain.Json.{Fields, end, field, text, boolean, object}
use guildmind.Domain.Usage.{no_usage}
use guildmind.Domain.Limits.{BudgetLimits}
use guildmind.Domain.Samples.{usage_to_json, limits_to_json}
use guildmind.Domain.Status.{pending, infrastructure_error, value}
use guildmind.Domain.Event.{EventRecord, Canonical}
use guildmind.Domain.Manifest.{RunManifest}
use guildmind.Store.Tables.{Ledger, find}
use guildmind.Store.Wire.{Wire}
use guildmind.Store.Manifests.{manifest_creation_payload}
use guildmind.Store.Write.{Handle}

abbrev pub uncapped : BudgetLimits ℕ
uncapped = record {
  max_input_tokens = none;
  max_output_tokens = none;
  max_total_tokens = none;
  max_model_calls = some 1;
  max_model_retries = some 0;
  max_tool_calls = none;
  max_tool_cpu_seconds = none;
  max_container_wall_seconds = none;
  max_elapsed_seconds = none;
  max_estimated_cost_usd = none;
}

abbrev pub waiting : RunManifest ℕ
waiting = record {
  run_id = "run-1";
  experiment_id = "x";
  task_id = "t";
  candidate_id = "c";
  genome_hash = none;
  requested_model = "m";
  returned_model = none;
  model_parameters = end;
  seed = 0;
  environment_digest = "sha256:0123456789abcdef0123456789abcdef0123456789abcdef0123456789abcdef";
  code_revision = "r";
  budget_limits = uncapped;
  status = pending;
  created_at = 5;
  started_at = none;
  finished_at = none;
  terminal_reason = none;
  artifacts = [];
}

abbrev pub other : RunManifest ℕ
other = record waiting { run_id = "run-2" }

abbrev pub recovered : RunManifest ℕ
recovered = record waiting {
  status = infrastructure_error;
  finished_at = some 9;
  terminal_reason = some "interrupted_run_recovered";
}

-- Records are told apart by their IDs, and hashes are the texts themselves.
instance abbrev pub id_canonical : Canonical ℕ
id_canonical = record {
  event_json = λ e. e.event_id;
  payload_json = λ _. "payload";
  sha256_hex = λ s. s;
}

abbrev pub digit : ℕ → String
digit n =
    if eqb n 0
    then "0"
    else if eqb n 1
    then "1"
    else if eqb n 2
    then "2"
    else if eqb n 3
    then "3"
    else if eqb n 4
    then "4"
    else if eqb n 5
    then "5"
    else if eqb n 6
    then "6"
    else "7"

abbrev name_of : ℕ → String
name_of n = concat "run-1:event:0000000" (digit n)

abbrev linked : ℕ → List String → Option String → String → Fields ℕ → EventRecord ℕ
linked n parents previous kind p = record {
  event_id = name_of n;
  run_id = "run-1";
  sequence = n;
  causal_parent_ids = parents;
  event_type = kind;
  monotonic_ns = n;
  occurred_at = n;
  payload = p;
  payload_sha256 = "payload";
  previous_event_hash = previous;
}

abbrev after : ℕ → ℕ → String → Fields ℕ → EventRecord ℕ
after before n kind p = linked n (name_of before ∷ []) (some (name_of before)) kind p

abbrev absent : String → Fields ℕ
absent name = field "name" (text name) (field "reason" (text "interrupted") end)

-- The events of a run that is created and then recovered.
abbrev pub records : List (EventRecord ℕ)
unfolding manifest_creation_payload
records =
    linked 0 [] none "run.created" (manifest_creation_payload limits_to_json waiting)
    ∷ after 0 1 "artifact.not_produced" (absent "evaluation")
    ∷ after 1 2 "artifact.not_produced" (absent "evaluation_stderr")
    ∷ after 2 3 "artifact.not_produced" (absent "evaluation_stdout")
    ∷ after 3 4 "artifact.not_produced" (absent "patch")
    ∷ after 4 5 "artifact.not_produced" (absent "task_spec")
    ∷ after 5 6 "budget.snapshot" (
        field "used" (object (usage_to_json no_usage))
          (field "reserved" (object (usage_to_json no_usage)) end))
    ∷ after 6 7 "run.terminal" (
        field "recovered" (boolean true) (
          field "status" (text (value infrastructure_error))
            (field "terminal_reason" (text "interrupted_run_recovered") end)))
    ∷ record (linked 0 [] none "run.created" (manifest_creation_payload limits_to_json waiting)) {
      event_id = "run-2:event:00000000";
      run_id = "run-2";
    }
    ∷ []

abbrev pub sample_wire : Wire ℕ
sample_wire = record {
  manifest_json = λ m. concat m.run_id (concat " " (value m.status));
  read_manifest = λ s.
      if s == "run-1 pending"
      then ok waiting
      else if s == "run-1 infrastructure_error"
      then ok recovered
      else if s == "run-2 pending"
      then ok other
      else err Error.validation_error;
  read_event =
      λ s. or_raise (find (λ (e : EventRecord ℕ). e.event_id == s) records) Error.validation_error;
  limits_json = λ _. "limits";
  read_limits = λ _. ok uncapped;
  usage_json = λ _. "usage";
  read_usage = λ _. ok no_usage;
  roots_json = λ _. "roots";
  usage_payload = usage_to_json;
  limits_payload = limits_to_json;
  same_json = λ _ _. true;
  decimal_08 = λ n. concat "0000000" (digit n);
  stamp = λ n. record { occurred_at = n; monotonic_ns = n };
  before = λ _ _. false;
  inspect_path = λ _. ok tt;
  inspect_schema = λ _. ok tt;
  inspect_sqlite = λ _. ok tt;
}

abbrev pub sample_handle : Handle
sample_handle = record { read_only = false; opens_existing = true }

abbrev pub no_rows : Ledger
no_rows = record { runs = []; run_manifests = []; events = []; budget_state = []; ticks = 0 }
