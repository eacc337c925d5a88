-- ===== src/Base/Counting.antt =====
-- How many things that calls open are open.
use Prim.Native.Nat.{ℕ, suc}
use mathlib.Core.Path.{◌≡◌, ◌∙◌, ap}
use omnistorage.Base.Outcome.{Error, Result, ok, err, panic}

-- One more if a call gave something.
unfoldable pub one_if_ok : {A : Type 0} → Result A → ℕ → ℕ
one_if_ok (ok _) n = suc n
one_if_ok _ n = n

pub one_if_ok-ok :
    {A : Type 0} {r : Result A} {a : A} {n m : ℕ} → r ≡ ok a → n ≡ one_if_ok r m → n ≡ suc m
unfolding one_if_ok
one_if_ok-ok {m = m} e h = h ∙ ap (λ r. one_if_ok r m) e

pub one_if_ok-err :
    {A : Type 0} {r : Result A} {f : Error} {n m : ℕ} → r ≡ err f → n ≡ one_if_ok r m → n ≡ m
unfolding one_if_ok
one_if_ok-err {m = m} e h = h ∙ ap (λ r. one_if_ok r m) e

pub one_if_ok-panic : {A : Type 0} {r : Result A} {n m : ℕ} → r ≡ panic → n ≡ one_if_ok r m → n ≡ m
unfolding one_if_ok
one_if_ok-panic {m = m} e h = h ∙ ap (λ r. one_if_ok r m) e
