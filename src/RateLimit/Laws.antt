-- ===== src/RateLimit/Laws.antt =====
-- When a limited reader waits for ever.
use omnistorage.Base.{ℕ, zero, suc, ◌≤◌, ◌<◌, nat_eq, ◌≡◌, refl, Option, none, Error, arith}
use omnistorage.Base.Int.{pos}
use omnistorage.RateLimit.{TokenBucket, new_token_bucket, add_tokens, wait_loop, wait, limited_read}

-- The bucket never holds more than it can.
add_tokens_lem :
    (n : ℕ) (tb : TokenBucket)
    → ((add_tokens n tb).tokens ≤ tb.max_tokens) × ((add_tokens n tb).max_tokens ≡ tb.max_tokens)
unfolding add_tokens
add_tokens_lem n tb = ground arith

module _ (gained : ℕ → ℕ) (meanwhile : ℕ → TokenBucket → TokenBucket)
    (keeps : (n : ℕ) (tb : TokenBucket) → (meanwhile n tb).max_tokens ≡ tb.max_tokens) where
  wait_loop_starves :
      (fuel n needed : ℕ) (tb : TokenBucket)
      → tb.tokens ≤ tb.max_tokens
      → tb.max_tokens < needed
      → wait_loop gained meanwhile fuel n needed tb ≡ none
  unfolding wait_loop add_tokens
  wait_loop_starves zero n needed tb h k = refl
  wait_loop_starves (suc fuel) n needed tb h k =
      let next = meanwhile n tb in
      ground (
        arith,
        keeps n tb,
        add_tokens_lem (gained n) next,
        wait_loop_starves fuel (suc n) needed (add_tokens (gained n) next),
      )

  -- A limited reader whose limit is below the number of bytes that it asks for at once, which is
  -- the size of the buffer but at most 65536, never returns, whatever the refills gain and
  -- whatever others do with the bucket in between, if they leave what it can hold.
  pub limited_read_starves :
      (fuel limit size : ℕ) (inner : ℕ → ℕ × Option Error)
      → limit < size
      → limit < 65536
      → 0 < limit
      → limited_read gained meanwhile fuel inner size (new_token_bucket (pos limit)) ≡ none
  unfolding limited_read new_token_bucket wait
  limited_read_starves fuel zero size inner h k p = absurd (omega arith)
  limited_read_starves fuel (suc m) size inner h k p =
      let full_bucket : TokenBucket = record { rate = suc m; tokens = suc m; max_tokens = suc m } in
      ground (
        arith,
        wait_loop_starves fuel 1 size (add_tokens (gained 0) full_bucket),
        wait_loop_starves fuel 1 65536 (add_tokens (gained 0) full_bucket),
        add_tokens_lem (gained 0) full_bucket,
      )
