-- ===== src/RateLimit.antt =====
-- sync/ratelimit.go: the token bucket that readers with a bandwidth limit share. What a refill
-- gains, `int64(elapsed.Seconds() * float64(tb.rate))`, is a parameter: `gained n` is that of the
-- refill of number `n`. The reader inside is one too, and so is what other users of the bucket do
-- while `wait` sleeps and its lock is free: `meanwhile n` is that before the refill of number `n`.
pub mod Laws
use omnistorage.Base.{
  ℕ, zero, suc, ◌+◌, ◌-◌, ◌*◌, Bool, Option, none, some, Error, if◌then◌else◌, ltb, nat_eq, ◌==◌,
}
use omnistorage.Base.Int.{ℤ, pos, negsuc}

pub record TokenBucket : Type 0 where
  pub rate : ℕ
  pub tokens : ℕ
  pub max_tokens : ℕ

-- `newTokenBucket`, which gives nil where there is no limit.
unfoldable pub new_token_bucket : ℤ → Option TokenBucket
new_token_bucket (negsuc n) = none
new_token_bucket (pos zero) = none
new_token_bucket (pos (suc n)) = some (record { rate = suc n; tokens = suc n; max_tokens = suc n })

-- `tb.tokens += n`, up to `tb.maxTokens`: the end of `refill` and of `returnTokens`.
unfoldable pub add_tokens : ℕ → TokenBucket → TokenBucket
add_tokens n tb =
    let total = tb.tokens + n in
    record tb { tokens = if ltb tb.max_tokens total then tb.max_tokens else total }

module _ (gained : ℕ → ℕ) (meanwhile : ℕ → TokenBucket → TokenBucket) where
  -- The loop of `wait` from the refill of number `n` on, which has not ended where it is `none`.
  unfoldable pub wait_loop : ℕ → ℕ → ℕ → TokenBucket → Option TokenBucket
  wait_loop zero n needed tb = none
  wait_loop (suc fuel) n needed tb =
      let next = wait_loop fuel (suc n) needed (add_tokens (gained n) (meanwhile n tb)) in
      if ltb tb.tokens needed then next else some (record tb { tokens = tb.tokens - needed })

  unfoldable pub wait : ℕ → ℕ → TokenBucket → Option TokenBucket
  wait fuel needed tb = wait_loop fuel 1 needed (add_tokens (gained 0) tb)

  -- `rateLimitedReader.Read` into a buffer of `size` bytes, when a read of so many bytes from the
  -- reader inside gives `inner`: the number of bytes and the error.
  unfoldable pub limited_read :
      ℕ
      → (ℕ → ℕ × Option Error)
      → ℕ
      → Option TokenBucket
      → Option ((ℕ × Option Error) × Option TokenBucket)
  limited_read fuel inner size none = some (inner size, none)
  limited_read fuel inner size (some tb) =
      let chunk_size : ℕ = 65536 in
      let to_read : ℕ = if ltb chunk_size size then chunk_size else size in
      if tb.rate == 0 then some (inner size, some tb) else elim (wait fuel to_read tb) [
        | none ↦ none
        | some left ↦
            let n = (inner to_read).0 in
            some
              (inner to_read, some (if ltb n to_read then add_tokens (to_read - n) left else left))
      ]
