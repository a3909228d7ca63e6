-- ===== src/Store/Returns.antt =====
-- Inversion of the ways to build a method: what a return says of the parts.
use guildmind.Common.{◌≡◌, refl, Bool, true, false, Error, Result, ok, err}
use mathlib.Core.Path.{subst}
use guildmind.Store.Exec.{Exec, pure, lift, reads, writes, check, ◌>>=◌}

module _ {S : Type 0} where
  pub bind-returns :
      {A B : Type 0} (m : Exec S A) (f : A → Exec S B) {s u : S} {b : B}
      → (m >>= f) s ≡ ok (b, u)
      → (a : A) × (t : S) × (m s ≡ ok (a, t)) × (f a t ≡ ok (b, u))
  unfolding ◌>>=◌
  bind-returns {A} {B} m f {s} {u} {b} h = go (m s) refl h
    where
      go :
          (r : Result (A × S))
          → m s ≡ r
          → Path (Result (B × S)) (elim r [ ok (a, t) ↦ f a t | err e ↦ err e ]) (ok (b, u))
          → (a : A) × (t : S) × (m s ≡ ok (a, t)) × (f a t ≡ ok (b, u))
      go (ok (a, t)) e h = (a, t, e, h)
      go (err x) e h = absurd (cc h)

  pub pure-returns :
      {A : Type 0} (a : A) {b : A} {s t : S} → pure a s ≡ ok (b, t) → (a ≡ b) × (s ≡ t)
  unfolding pure
  pure-returns a h = (cc h, cc h)

  pub lift-returns :
      {A : Type 0} (r : Result A) {a : A} {s t : S} → lift r s ≡ ok (a, t) → (r ≡ ok a) × (s ≡ t)
  unfolding lift
  lift-returns (ok a) h = (cc h, cc h)
  lift-returns (err e) h = (absurd (cc h), absurd (cc h))

  pub writes-returns :
      (f : S → Result S) {a : Unit {0}} {s t : S} → writes f s ≡ ok (a, t) → f s ≡ ok t
  unfolding writes
  writes-returns f {a} {s} {t} h = go (f s) refl h
    where
      go :
          (r : Result S)
          → f s ≡ r
          → Path
              (Result (Unit {0} × S))
              (elim r [ ok s' ↦ ok (tt, s') | err e ↦ err e ])
              (ok (a, t))
          → f s ≡ ok t
      go (ok s') e h = let same : s' ≡ t = cc h in subst (λ (x : S). f s ≡ ok x) same e
      go (err x) e h = absurd (cc h)

  -- The rest of a method after a part that only reads, at the same state.
  module _ {B : Type 0} {s u : S} {b : B} where
    pub lift-then :
        {A : Type 0} (r : Result A) (f : A → Exec S B)
        → (lift r >>= f) s ≡ ok (b, u)
        → (a : A) × (r ≡ ok a) × (f a s ≡ ok (b, u))
    unfolding ◌>>=◌ lift
    lift-then (ok a) f h = (a, refl, h)
    lift-then (err e) f h = absurd (cc h)

    pub reads-then :
        {A : Type 0} (g : S → Result A) (f : A → Exec S B)
        → (reads g >>= f) s ≡ ok (b, u)
        → (a : A) × (g s ≡ ok a) × (f a s ≡ ok (b, u))
    unfolding reads ◌>>=◌
    reads-then g f h = lift-then (g s) f h

    pub check-then :
        (test : Bool) (e : Error) (f : Unit {0} → Exec S B)
        → (check test e >>= f) s ≡ ok (b, u)
        → (test ≡ true) × (f tt s ≡ ok (b, u))
    unfolding check ◌>>=◌ lift
    check-then true e f h = (refl, h)
    check-then false e f h = absurd (cc h)

    pub writes-then :
        (g : S → Result S) (f : Unit {0} → Exec S B)
        → (writes g >>= f) s ≡ ok (b, u)
        → (t : S) × (g s ≡ ok t) × (f tt t ≡ ok (b, u))
    writes-then g f h =
        let (a, t, e, rest) = bind-returns (writes g) f h in (t, writes-returns g e, rest)
