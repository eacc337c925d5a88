-- ===== src/Retry.antt =====
-- sync/retry.go: an operation is called again while it fails. How long the waits are is left
-- out; whether the context ends during one is not.
pub mod Laws
use omnistorage.Base.{
  ℕ, zero, suc, ◌+◌, Bool, true, false, not, Error, retry_error, Result, ok, err, panic, Option,
  none, some, Context, if◌then◌else◌,
}
use omnistorage.Base.Int.{ℤ, pos, negsuc}
use omnistorage.Base.Action.{Action}

-- `retryable` is `RetryableErrors`, where nil retries all errors.
pub record RetryConfig : Type 0 where
  pub max_retries : ℤ
  pub retryable : Option (Error → Bool)

-- What the context says after the attempt of a number, and in the wait behind it.
pub record Waits : Type 0 where
  pub after : ℕ → Context
  pub during : ℕ → Context

abbrev pub is_retryable : RetryConfig → Error → Bool
is_retryable config e = elim config.retryable [ none ↦ true | some test ↦ test e ]

module _ {S A : Type 0} (config : RetryConfig) (waits : Waits) (op : Action S A) where
  -- What an attempt leads to, with `next` for one that failed, may be retried and has a live
  -- context behind it.
  abbrev guarded : ℕ → Result A × S → (Error → Action S A) → Result A × S
  guarded attempt (ok a, s) next = (ok a, s)
  guarded attempt (panic, s) next = (panic, s)
  guarded attempt (err e, s) next =
      if is_retryable config e
      then elim (waits.after attempt) [ some done ↦ (err done, s) | none ↦ next e s ]
      else (err e, s)

  -- The loop from the attempt of number `attempt` on, with `left` attempts behind it.
  unfoldable pub retry_loop : ℕ → ℕ → Action S A
  retry_loop zero attempt s = guarded attempt (op s) (λ e t. (err (retry_error (attempt + 1) e), t))
  retry_loop (suc left) attempt s = guarded attempt (op s) (λ e t. elim (waits.during attempt) [
    | some done ↦ (err done, t)
    | none ↦ retry_loop left (attempt + 1) t
  ])

  unfoldable pub retry_operation : Action S A
  unfolding retry_loop
  retry_operation s = elim config.max_retries [
    | negsuc n ↦ op s
    | pos n ↦ elim n [ zero ↦ op s | suc m ↦ retry_loop (suc m) 0 s ]
  ]
