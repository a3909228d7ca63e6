-- ===== src/Store/Exec.antt =====
-- A method on the ledger: it returns a value and the new state, or raises. A transaction that
-- raises is rolled back, so an error carries no state.
use mathlib.Core.Path.{subst}
use guildmind.Common.{
  ◌≡◌, refl, List, [], ◌∷◌, Bool, true, false, if◌then◌else◌, Error, Result, ok, err, require, ◌∙◌,
  ap,
}

abbrev pub Exec : Type 0 → Type 0 → Type 0
Exec S A = S → Result (A × S)

module _ {S A : Type 0} where
  unfoldable pub pure : A → Exec S A
  pure a s = ok (a, s)

  unfoldable pub raise : Error → Exec S A
  raise e s = err e

  unfoldable pub lift : Result A → Exec S A
  lift (ok a) s = ok (a, s)
  lift (err e) s = err e

  -- A reader, which may raise.
  unfoldable pub reads : (S → Result A) → Exec S A
  unfolding lift
  reads f s = lift (f s) s

unfoldable pub writes : {S : Type 0} → (S → Result S) → Exec S (Unit {0})
writes f s = elim (f s) [ ok s' ↦ ok (tt, s') | err e ↦ err e ]

infixl 5 ◌>>=◌ ◌>>◌
unfoldable pub ◌>>=◌ : {S A B : Type 0} → Exec S A → (A → Exec S B) → Exec S B
◌>>=◌ m f s = elim (m s) [ ok (a, s') ↦ f a s' | err e ↦ err e ]

abbrev pub ◌>>◌ : {S A B : Type 0} → Exec S A → Exec S B → Exec S B
m >> n = m >>= λ _. n

unfoldable pub check : {S : Type 0} → Bool → Error → Exec S (Unit {0})
unfolding lift
check test e = lift (require test e)

unfoldable pub for_each : {S A : Type 0} → (A → Exec S (Unit {0})) → List A → Exec S (Unit {0})
unfolding pure
for_each f [] = pure tt
for_each f (x ∷ xs) = f x >> for_each f xs

-- Every return of `m` is a step of the relation.
pub record Respects {S A : Type 0} (R : S → S → Type 0) (m : Exec S A) : Type 0 where
  pub at : (s s' : S) (a : A) → m s ≡ ok (a, s') → R s s'

ok-state :
    {S A : Type 0} {a b : A} {s t : S} → Path (Result (A × S)) (ok (a, s)) (ok (b, t)) → s ≡ t
ok-state h = cc h

-- One rule for each way to build a method, for a relation that is reflexive and transitive.
pub record IsPreorder {S : Type 0} (R : S → S → Type 0) : Type 0 where
  pub same : (s : S) → R s s
  pub chain : (s t u : S) → R s t → R t u → R s u

module _ {S : Type 0} {R : S → S → Type 0} (p : IsPreorder R) where
  pub Respects-pure : {A : Type 0} (a : A) → Respects R (pure a)
  unfolding pure
  Respects-pure a = record { at = λ s s' b h. subst (R s) (ok-state h) (p.same s) }

  pub Respects-raise : {A : Type 0} (e : Error) → Respects R (raise {A = A} e)
  unfolding raise
  Respects-raise e = record { at = λ s s' a h. absurd (cc h) }

  pub Respects-lift : {A : Type 0} (r : Result A) → Respects R (lift r)
  unfolding lift
  Respects-lift (ok a) = record { at = λ s s' b h. subst (R s) (ok-state h) (p.same s) }
  Respects-lift (err e) = record { at = λ s s' a h. absurd (cc h) }

  pub Respects-reads : {A : Type 0} (f : S → Result A) → Respects R (reads f)
  unfolding reads
  Respects-reads f = record { at = λ s s' a h. (Respects-lift (f s)).at s s' a h }

  pub Respects-check : (test : Bool) (e : Error) → Respects R (check test e)
  unfolding check
  Respects-check test e = Respects-lift (require test e)

  pub Respects-bind :
      {A B : Type 0} (m : Exec S A) (f : A → Exec S B)
      → Respects R m
      → ((a : A) → Respects R (f a))
      → Respects R (m >>= f)
  unfolding ◌>>=◌
  Respects-bind {A} {B} m f first rest = record { at = λ s u b h. go s u b (m s) refl h }
    where
      go :
          (s u : S) (b : B) (r : Result (A × S))
          → m s ≡ r
          → Path (Result (B × S)) (elim r [ ok (a, t) ↦ f a t | err e ↦ err e ]) (ok (b, u))
          → R s u
      go s u b (ok (a, t)) e h = p.chain s t u (first.at s t a e) ((rest a).at t u b h)
      go s u b (err x) e h = absurd (cc h)

  pub Respects-for_each :
      {A : Type 0} (f : A → Exec S (Unit {0})) (xs : List A)
      → ((a : A) → Respects R (f a))
      → Respects R (for_each f xs)
  unfolding for_each
  Respects-for_each f [] each = Respects-pure tt
  Respects-for_each f (x ∷ xs) each =
      Respects-bind (f x) (λ _. for_each f xs) (each x) (λ _. Respects-for_each f xs each)

  -- After a step that returns the value of `r`, the rest may use that equation.
  pub Respects-lift-bind :
      {A B : Type 0} (r : Result A) (f : A → Exec S B)
      → ((a : A) → r ≡ ok a → Respects R (f a))
      → Respects R (lift r >>= f)
  unfolding ◌>>=◌ lift
  Respects-lift-bind (ok a) f rest = record { at = λ s u b h. (rest a refl).at s u b h }
  Respects-lift-bind (err e) f rest = record { at = λ s u b h. absurd (cc h) }

  pub Respects-writes :
      (f : S → Result S) → ((s t : S) → f s ≡ ok t → R s t) → Respects R (writes f)
  unfolding writes
  Respects-writes f step = record { at = λ s t a h. go s t a (f s) refl h }
    where
      go :
          (s t : S) (a : Unit {0}) (r : Result S)
          → f s ≡ r
          → Path
              (Result (Unit {0} × S))
              (elim r [ ok s' ↦ ok (tt, s') | err e ↦ err e ])
              (ok (a, t))
          → R s t
      go s t a (ok s') e h = step s t (e ∙ ap ok (ok-state h))
      go s t a (err x) e h = absurd (cc h)

pub Respects-if :
    {S A : Type 0} (R : S → S → Type 0) (test : Bool) (m n : Exec S A)
    → Respects R m
    → Respects R n
    → Respects R (if test then m else n)
Respects-if R true m n yes_m yes_n = yes_m
Respects-if R false m n yes_m yes_n = yes_n

-- The rules that follow the text of a method.
pub ruleset method_rules = (
  Respects-bind, Respects-check, Respects-reads, Respects-lift, Respects-pure, Respects-for_each,
  Respects-writes, Respects-if,
)
