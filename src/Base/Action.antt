-- ===== src/Base/Action.antt =====
-- Methods of an object with state `S`: they return a result and the state that they leave, also
-- when they fail.
use mathlib.Core.Path.{◌≡◌}
use mathlib.Core.Logic.{inl, inr}
use mathlib.Core.Bool.{Bool}
use native.Mathlib.Omega.{arith}
use mathlib.Core.Option.{Option}
use omnistorage.Base.Equality.{if◌then◌else◌}
use omnistorage.Base.Outcome.{Error, Result, ok, err, panic, Context, ctx_err, or_err, Result-cases}

abbrev pub Action : Type 0 → Type 0 → Type 0
Action S A = S → Result A × S

module _ {S : Type 0} where
  infixl 5 ◌>>=◌ ◌>>◌
  abbrev pub ◌>>=◌ : {A B : Type 0} → Action S A → (A → Action S B) → Action S B
  ◌>>=◌ m f s =
      let (r, s') = m s in elim r [ ok a ↦ f a s' | err e ↦ (err e, s') | panic ↦ (panic, s') ]

  abbrev pub ◌>>◌ : {A B : Type 0} → Action S A → Action S B → Action S B
  m >> k = m >>= λ _. k

  abbrev pub lift : {A : Type 0} → Result A → Action S A
  lift r s = (r, s)

  abbrev pub pure : {A : Type 0} → A → Action S A
  pure a s = (ok a, s)

  abbrev pub fail : {A : Type 0} → Error → Action S A
  fail e s = (err e, s)

  abbrev pub gets : {A : Type 0} → (S → A) → Action S A
  gets f s = (ok (f s), s)

  abbrev pub put : S → Action S (Unit {0})
  put t s = (ok tt, t)

  -- `if test { return e }`
  abbrev pub fail_when : Bool → Error → Action S (Unit {0})
  fail_when test e s = (if test then err e else ok tt, s)

  abbrev pub check_ctx : Context → Action S (Unit {0})
  check_ctx ctx s = (ctx_err ctx, s)

  abbrev pub found : {A : Type 0} → Option A → Error → Action S A
  found o e s = (or_err o e, s)

  -- A chain that succeeds has a first step that does, and is the rest after it.
  pub >>=-eq-ok :
      {A B : Type 0} (m : Action S A) (f : A → Action S B) (s : S) {y : B}
      → ((m >>= f) s).0 ≡ ok y
      → (x : A) × ((m s).0 ≡ ok x) × ((m >>= f) s ≡ f x (m s).1)
  >>=-eq-ok m f s h = elim (Result-cases (m s).0) [
    | inl (x, e) ↦ (x, e, rw (e, ◌>>=◌))
    | inr (inl (f', e)) ↦ absurd (ground arith)
    | inr (inr e) ↦ absurd (ground arith)
  ]
