-- ===== src/Sync/ContentLaws.antt =====
-- `compareContent` finds two files the same exactly when they are.
use mathlib.Core.List.{flatten}
use omnistorage.Base.{
  ℕ, zero, suc, ◌*◌, ◌<◌, Bytes, bytes_eq, nat_eq, ◌≡◌, ◌≢◌, sym, ◌∙◌, ◌↔◌, true, ok, panic, arith,
  length, take, drop, take-append-drop, take_of_length-le, length-drop,
}
use omnistorage.Base.Action.{◌>>=◌}
use omnistorage.Backends.{Stream, Backend}
use omnistorage.Sync.Content.{Pending, is_end, compare_loop, pending, compare_content}

-- The two deliver the same bytes, and what is behind them passes for their end.
abbrev pub Same : Pending → Pending → Type 0
Same a b = (a.bytes ≡ b.bytes) × (is_end a.failure ≡ true) × (is_end b.failure ≡ true)

split_eq : (n : ℕ) (a b : Bytes) → take n a ≡ take n b → drop n a ≡ drop n b → a ≡ b
split_eq n a b h k = sym (take-append-drop n a) ∙ rw (h, k) (take-append-drop n b)

compare_loop-Same :
    (fuel m : ℕ) (a b : Pending)
    → length a.bytes < fuel
    → (compare_loop fuel (suc m) a b ≡ ok true) ↔ Same a b
unfolding compare_loop
compare_loop-Same zero m a b h = absurd (omega arith)
compare_loop-Same (suc fuel) m a b h = ground (
  arith,
  take_of_length-le (suc m) a.bytes,
  take_of_length-le (suc m) b.bytes,
  split_eq (suc m) a.bytes b.bytes,
  length-drop (suc m) a.bytes,
  compare_loop-Same fuel m (record a { bytes = drop (suc m) a.bytes })
      (record b { bytes = drop (suc m) b.bytes }),
)

compare_loop_ends :
    (fuel m : ℕ) (a b : Pending) → length a.bytes < fuel → compare_loop fuel (suc m) a b ≢ panic
unfolding compare_loop
compare_loop_ends zero m a b h = absurd (omega arith)
compare_loop_ends (suc fuel) m a b h = ground (
  arith,
  length-drop (suc m) a.bytes,
  compare_loop_ends fuel m (record a { bytes = drop (suc m) a.bytes })
      (record b { bytes = drop (suc m) b.bytes }),
)

-- The comparison of what two readers deliver, in pieces of any positive size, ends before its fuel
-- does, if that is more than the number of bytes of the first; and it says "same" exactly when
-- both deliver the same bytes and are at their end behind them, however the bytes come in chunks.
pub compare_loop_exact :
    (fuel n : ℕ) (a b : Pending)
    → 0 < n
    → length a.bytes < fuel
    → (compare_loop fuel n a b ≢ panic) × ((compare_loop fuel n a b ≡ ok true) ↔ Same a b)
compare_loop_exact fuel zero a b p h = absurd (omega arith)
compare_loop_exact fuel (suc m) a b p h =
    (compare_loop_ends fuel m a b h, compare_loop-Same fuel m a b h)

-- `compareContent` of two files whose readers open does not panic, and it says "same" exactly when
-- both readers deliver the same bytes, and behind them each gives `io.EOF` or
-- `io.ErrUnexpectedEOF`, with which a reader that is cut off passes for one at its end.
pub compare_content_exact :
    {W : Type 0} (S D : Backend W) (src dst : Bytes) (s : W) (a b : Stream)
    → (S.new_reader src s).0 ≡ ok a
    → (D.new_reader dst (S.new_reader src s).1).0 ≡ ok b
    → ((compare_content S D src dst s).0 ≢ panic)
      × (((compare_content S D src dst s).0 ≡ ok true) ↔ (
          (flatten a.chunks ≡ flatten b.chunks)
          × (is_end a.failure ≡ true)
          × (is_end b.failure ≡ true)))
unfolding compare_content
compare_content_exact S D src dst s a b e k =
    rw (e, k, ◌>>=◌)
      (compare_loop_exact (suc (length (flatten a.chunks))) (64 * 1024) (pending a) (pending b)
        (omega arith) (omega arith))
