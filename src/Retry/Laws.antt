-- ===== src/Retry/Laws.antt =====
-- How often an operation is called, and what its caller learns.
use native.Mathlib.Nat.{add-zero}
use omnistorage.Base.{
  ℕ, zero, suc, ◌+◌, ◌≤◌, ◌≡◌, refl, ◌∙◌, true, Error, retry_error, Result, ok, err, panic, none,
  arith,
}
use omnistorage.Base.Int.{pos}
use omnistorage.Base.Action.{Action}
use omnistorage.Retry.{RetryConfig, Waits, is_retryable, guarded, retry_loop, retry_operation}

module _ {S A : Type 0} (config : RetryConfig) (waits : Waits) (op : Action S A) where
  -- The operation fails `n` times in a row, each time in a way that may be retried, and takes the
  -- state to another.
  pub data Fails : ℕ → S → S → Type 0 where
    not_once : {s : S} → Fails zero s s
    again :
        {n : ℕ} {s t : S} (e : Error)
        → (op s).0 ≡ err e
        → is_retryable config e ≡ true
        → Fails n (op s).1 t
        → Fails (suc n) s t

  -- The context does not end while the operation is tried.
  pub record IsLive : Type 0 where
    pub after_live : (n : ℕ) → waits.after n ≡ none
    pub during_live : (n : ℕ) → waits.during n ≡ none

  guarded_ok :
      (n : ℕ) (r : Result A × S) (next : Error → Action S A) {a : A}
      → r.0 ≡ ok a
      → guarded config waits op n r next ≡ r
  guarded_ok n (ok a, s) next h = refl
  guarded_ok n (err e, s) next h = cc
  guarded_ok n (panic, s) next h = cc

  guarded_err :
      (n : ℕ) (r : Result A × S) (next : Error → Action S A) (e : Error)
      → IsLive
      → r.0 ≡ err e
      → is_retryable config e ≡ true
      → guarded config waits op n r next ≡ next e r.1
  guarded_err n (ok a, s) next e live h k = cc
  guarded_err n (err f, s) next e live h k = ground (arith, live.after_live n)
  guarded_err n (panic, s) next e live h k = cc

  loop_succeeds :
      (left n k : ℕ) (s t : S) {a : A}
      → IsLive
      → Fails k s t
      → k ≤ left
      → (op t).0 ≡ ok a
      → retry_loop config waits op left n s ≡ op t
  unfolding retry_loop
  loop_succeeds zero n zero s t live not_once h done = guarded_ok n (op s) _ done
  loop_succeeds (suc left) n zero s t live not_once h done = guarded_ok n (op s) _ done
  loop_succeeds zero n (suc k) s t live f h done = absurd (omega arith)
  loop_succeeds (suc left) n (suc k) s t live (again e failed retry f) h done =
      guarded_err n (op s) _ e live failed retry
      ∙ rw (live.during_live n) (loop_succeeds left (n + 1) k (op s).1 t live f (omega arith) done)

  loop_exhausted :
      (left n : ℕ) (s u : S) (e : Error)
      → IsLive
      → Fails left s u
      → (op u).0 ≡ err e
      → is_retryable config e ≡ true
      → retry_loop config waits op left n s ≡ (err (retry_error (n + left + 1) e), (op u).1)
  unfolding retry_loop
  loop_exhausted zero n s u e live not_once failed retry =
      guarded_err n (op s) _ e live failed retry ∙ rw add-zero
  loop_exhausted (suc left) n s u e live (again e' failed' retry' f) failed retry =
      let count : n + 1 + left + 1 ≡ n + suc left + 1 = omega arith in
      guarded_err n (op s) _ e' live failed' retry'
      ∙ rw (live.during_live n)
          (loop_exhausted left (n + 1) (op s).1 u e live f failed retry ∙ rw count)

  -- While the context lives: an operation that first fails `k` times, in ways that may be
  -- retried, and then succeeds is retried to its success if `k` is at most the number of
  -- retries, and is not called after that.
  pub retry_succeeds :
      (k m : ℕ) (s t : S) {a : A}
      → config.max_retries ≡ pos m
      → IsLive
      → Fails k s t
      → k ≤ m
      → (op t).0 ≡ ok a
      → retry_operation config waits op s ≡ op t
  unfolding retry_operation
  retry_succeeds zero zero s t e live not_once h done = rw (e, retry_operation)
  retry_succeeds (suc k) zero s t e live f h done = absurd (omega arith)
  retry_succeeds k (suc m) s t e live f h done =
      rw (e, retry_operation) (loop_succeeds (suc m) 0 k s t live f h done)

  -- While the context lives and at least one retry is configured: if an operation fails as often as
  -- there are retries, each time in a way that may be retried, and then fails once more so, with the
  -- error `e`, it is not called again, and the caller gets the number of calls and this last error.
  pub retry_exhausted :
      (m : ℕ) (s u : S) (e : Error)
      → config.max_retries ≡ pos (suc m)
      → IsLive
      → Fails (suc m) s u
      → (op u).0 ≡ err e
      → is_retryable config e ≡ true
      → retry_operation config waits op s ≡ (err (retry_error (suc (suc m)) e), (op u).1)
  unfolding retry_operation
  retry_exhausted m s u e configured live f failed retry =
      let count : 0 + suc m + 1 ≡ suc (suc m) = omega arith in
      rw (configured, retry_operation)
        (loop_exhausted (suc m) 0 s u e live f failed retry ∙ rw count)
