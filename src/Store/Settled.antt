-- ===== src/Store/Settled.antt =====
-- A run that has ended: its methods raise, or return and leave the ledger as it is.
use guildmind.Common.{
  String, Bool, true, false, some, ◌≡◌, sym, ap, ◌∙◌, Error, Result, ok, if◌then◌else◌,
}
use mathlib.Core.Path.{subst}
use guildmind.Domain.Float.{Float}
use guildmind.Domain.Status.{is_terminal}
use guildmind.Domain.Event.{Canonical}
use guildmind.Domain.Manifest.{RunManifest}
use guildmind.Store.Exec.{Exec, pure, lift, reads, check, ◌>>=◌, Respects}
use guildmind.Store.Returns.{
  bind-returns, reads-then, check-then, lift-then, lift-returns, pure-returns,
}
use guildmind.Store.Tables.{Ledger, RunRow, run_row}
use guildmind.Store.Wire.{Wire}
use guildmind.Store.Read.{load_manifest_locked}
use guildmind.Store.Extends.{Extends, rank}
use guildmind.Store.Saves.{load_manifest_locked-returns, rank-value_terminal}

-- The run is there and has ended.
abbrev pub Ended : String → Ledger → Type 0
Ended id s = (r : RunRow) × (run_row id s ≡ some r) × (rank r.status ≡ 2)

pub record Settled {A : Type 0} (id : String) (m : Exec Ledger A) : Type 0 where
  pub at : (s t : Ledger) (a : A) → Ended id s → m s ≡ ok (a, t) → t ≡ s

pub record Refused {A : Type 0} (id : String) (m : Exec Ledger A) : Type 0 where
  pub at : (s t : Ledger) (a : A) → Ended id s → m s ≡ ok (a, t) → ⊥

pub Ended-Extends : (own id : String) (s t : Ledger) → Extends own s t → Ended id s → Ended id t
Ended-Extends own id s t x (r, here, ended) =
    let (q, there, up, kept) = x.runs_advance id r here in
    (q, there, ap (λ (p : RunRow). rank p.status) (kept ended) ∙ ended)

module _ (id : String) where
  pub Settled-Refused : {A : Type 0} (m : Exec Ledger A) → Refused id m → Settled id m
  Settled-Refused m no_return = record { at = λ s t a e h. absurd (no_return.at s t a e h) }

  pub Settled-pure : {A : Type 0} (a : A) → Settled id (pure a)
  Settled-pure a = record { at = λ s t b e h. sym (pure-returns a h).1 }

  pub Settled-lift : {A : Type 0} (r : Result A) → Settled id (lift r)
  Settled-lift r = record { at = λ s t b e h. sym (lift-returns r h).1 }

  pub Settled-reads : {A : Type 0} (f : Ledger → Result A) → Settled id (reads f)
  unfolding reads
  Settled-reads f = record { at = λ s t b e h. sym (lift-returns (f s) h).1 }

  pub Settled-check : (test : Bool) (e : Error) → Settled id (check test e)
  unfolding check
  Settled-check test e = record { at = λ s t b x h. sym (lift-returns _ h).1 }

  pub Settled-bind :
      {A B : Type 0} (m : Exec Ledger A) (f : A → Exec Ledger B)
      → Settled id m
      → ((a : A) → Settled id (f a))
      → Settled id (m >>= f)
  Settled-bind m f first rest = record {
    at = λ s t b e h.
        let (a, u, h₁, h₂) = bind-returns m f h in
        let same : u ≡ s = first.at s u a e h₁ in
        (rest a).at u t b (subst (Ended id) (sym same) e) h₂ ∙ same;
  }

  pub Settled-if :
      {A : Type 0} (test : Bool) (m n : Exec Ledger A)
      → test ≡ true
      → Settled id m
      → Settled id (if test then m else n)
  Settled-if true m n e inner = inner
  Settled-if false m n e inner = absurd (cc e)

  pub Refused-check :
      {B : Type 0} (test : Bool) (e : Error) (f : Unit {0} → Exec Ledger B)
      → test ≡ false
      → Refused id (check test e >>= f)
  Refused-check test e f failed = record {
    at = λ s t b x h. let passed = (check-then test e f h).0 in cc;
  }

  pub Refused-lift :
      {A B : Type 0} (r : Result A) (f : A → Exec Ledger B)
      → ((a : A) → r ≡ ok a → ⊥)
      → Refused id (lift r >>= f)
  Refused-lift r f failed = record {
    at = λ s t b x h. let (a, e, rest) = lift-then r f h in failed a e;
  }

  pub Settled-branch :
      {A : Type 0} (test : Bool) (m n : Exec Ledger A)
      → Settled id m
      → Settled id n
      → Settled id (if test then m else n)
  Settled-branch true m n here there = here
  Settled-branch false m n here there = there

  pub Refused-rest :
      {A B : Type 0} (m : Exec Ledger A) (f : A → Exec Ledger B)
      → Respects (Extends id) m
      → ((a : A) → Refused id (f a))
      → Refused id (m >>= f)
  Refused-rest m f first rest = record {
    at = λ s t b e h.
        let (a, u, h₁, h₂) = bind-returns m f h in
        (rest a).at u t b (Ended-Extends id id s u (first.at s u a h₁) e) h₂;
  }

  pub Refused-first :
      {A B : Type 0} (m : Exec Ledger A) (f : A → Exec Ledger B)
      → Refused id m
      → Refused id (m >>= f)
  Refused-first m f first = record {
    at = λ s t b e h. let (a, u, h₁, h₂) = bind-returns m f h in first.at s u a e h₁;
  }

  -- The manifest of an ended run is terminal.
  module _ {F : Type 0} ⦃fl : Float F⦄ ⦃cn : Canonical F⦄ (w : Wire F) where
    loaded-terminal :
        (s : Ledger) (m : RunManifest F)
        → Ended id s
        → load_manifest_locked w id s ≡ ok m
        → is_terminal m.status ≡ true
    loaded-terminal s m (r, here, ended) h =
        let (row, found, _, status) = load_manifest_locked-returns w id s h in
        let e : row ≡ r = cc in
        rank-value_terminal m.status
          (sym (ap rank status) ∙ ap (λ (x : RunRow). rank x.status) e ∙ ended)

    pub Settled-load :
        {B : Type 0} (f : RunManifest F → Exec Ledger B)
        → ((m : RunManifest F) → is_terminal m.status ≡ true → Settled id (f m))
        → Settled id (reads (load_manifest_locked w id) >>= f)
    Settled-load f rest = record {
      at = λ s t b e h.
          let (m, loaded, h₁) = reads-then _ f h in
          (rest m (loaded-terminal s m e loaded)).at s t b e h₁;
    }

    pub Refused-load :
        {B : Type 0} (f : RunManifest F → Exec Ledger B)
        → ((m : RunManifest F) → is_terminal m.status ≡ true → Refused id (f m))
        → Refused id (reads (load_manifest_locked w id) >>= f)
    Refused-load f rest = record {
      at = λ s t b e h.
          let (m, loaded, h₁) = reads-then _ f h in
          (rest m (loaded-terminal s m e loaded)).at s t b e h₁;
    }

pub ruleset settled_rules = (Settled-bind, Settled-check, Settled-reads, Settled-lift, Settled-pure)
