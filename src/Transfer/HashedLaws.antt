-- ===== src/Transfer/HashedLaws.antt =====
-- A copy with a hash is a copy, and its hash that of all bytes.
use mathlib.Core.List.{flatten}
use omnistorage.Base.{
  ℕ, ◌-◌, ◌+◌, ◌*◌, ◌/◌, ◌%◌, ◌<◌, Bytes, ◌≡◌, refl, sym, ap, ◌∙◌, List, [], ◌∷◌, ◌++◌, Option,
  none, some, Error, ok, arith, if◌then◌else◌, ltb, Result-cases, Option-cases, inl, inr, All,
}
use omnistorage.Features.{HashType}
use omnistorage.Options.{WriterOption}
use omnistorage.Backends.{Stream, Backend}
use omnistorage.Transfer.{io_copy, copy_and_close, copy_path}
use omnistorage.Transfer.Hashed.{
  Hasher, hex_char, hash_bytes_from_sum, hash_bytes, copy_hashed, hash_and_close,
  copy_path_with_hash,
}

-- What a hasher has after some chunks.
unfoldable pub add_all : (h : Hasher) → h.State → List Bytes → h.State
add_all h s [] = s
add_all h s (chunk ∷ chunks) = add_all h (h.add s chunk) chunks

-- A hash does not depend on how the bytes are cut.
pub record IsStreaming (h : Hasher) : Type 0 where
  pub nothing : (s : h.State) → h.add s [] ≡ s
  pub pieces : (s : h.State) (a b : Bytes) → h.add (h.add s a) b ≡ h.add s (a ++ b)

add_all-flatten :
    (h : Hasher) (s : h.State) (chunks : List Bytes)
    → IsStreaming h
    → add_all h s chunks ≡ h.add s (flatten chunks)
unfolding add_all flatten
add_all-flatten h s [] law = sym (law.nothing s)
add_all-flatten h s (chunk ∷ chunks) law =
    add_all-flatten h (h.add s chunk) chunks law ∙ law.pieces s chunk (flatten chunks)

module _ {W : Type 0} (D : Backend W) (w : D.Writer) (h : Hasher) where
  copy_hashed_lem :
      (s s' : h.State) (chunks : List Bytes) (failure : Option Error) (t : W)
      → (copy_hashed D w h s chunks failure t).0 ≡ ok s'
      → (s' ≡ add_all h s chunks)
        × (io_copy D w chunks failure t ≡ (ok tt, (copy_hashed D w h s chunks failure t).1))
  unfolding copy_hashed io_copy add_all
  copy_hashed_lem s s' [] none t e = (ground arith, refl)
  copy_hashed_lem s s' [] (some x) t e = absurd cc
  copy_hashed_lem s s' (chunk ∷ chunks) failure t e =
      let first = D.write w chunk t in
      elim (Result-cases first.0) [
        | inl (_, k) ↦
            let (a, b) = copy_hashed_lem (h.add s chunk) s' chunks failure first.1 (ground arith) in
            (a, ground (arith, b))
        | inr (inl (x, k)) ↦ absurd (ground arith)
        | inr (inr k) ↦ absurd (ground arith)
      ]

  hash_and_close_lem :
      (stream : Stream) (r : Bytes) (t : W)
      → (hash_and_close D w h stream t).0 ≡ ok r
      → (r ≡ hash_bytes_from_sum (h.sum (add_all h h.start stream.chunks)))
        × (copy_and_close D w stream t ≡ (ok tt, (hash_and_close D w h stream t).1))
  unfolding hash_and_close copy_and_close
  hash_and_close_lem stream r t e =
      let c = copy_hashed D w h h.start stream.chunks stream.failure t in
      elim (Result-cases c.0) [
        | inl (s, k) ↦
            let (a, b) = copy_hashed_lem h.start s stream.chunks stream.failure t k in
            elim (Result-cases (D.close w c.1).0) [
              | inl (_, l) ↦ (ground (arith, a), ground (arith, b))
              | inr (inl (x, l)) ↦ absurd (ground arith)
              | inr (inr l) ↦ absurd (ground arith)
            ]
        | inr (inl (x, k)) ↦ absurd (ground arith)
        | inr (inr k) ↦ absurd (ground arith)
      ]

-- A CopyPathWithHash that reports success is a CopyPath that does and leaves the same, and its
-- result is the hash of all bytes that the reader delivers, if the hash functions do not depend on
-- how the bytes are cut.
pub copy_path_with_hash_ok :
    {W : Type 0} (new_hash : HashType → Option Hasher) (S D : Backend W) (src dst : Bytes)
    (t : HashType) (opts : List WriterOption) (w : W) (r : Bytes)
    → ((k : HashType) (h : Hasher) → new_hash k ≡ some h → IsStreaming h)
    → (copy_path_with_hash new_hash S src D dst t opts w).0 ≡ ok r
    → (stream : Stream) × ((S.new_reader src w).0 ≡ ok stream)
      × (r ≡ hash_bytes new_hash (flatten stream.chunks) t)
      × (copy_path S src D dst opts w
          ≡ (ok tt, (copy_path_with_hash new_hash S src D dst t opts w).1))
unfolding copy_path_with_hash copy_path
copy_path_with_hash_ok new_hash S D src dst t opts w r laws e =
    let a = S.new_reader src w in
    elim (Result-cases a.0) [
      | inl (stream, k) ↦
          let b = D.new_writer dst opts a.1 in
          elim (Result-cases b.0) [
            | inl (x, l) ↦ elim (Option-cases (new_hash t)) [
              | inr (h, m) ↦
                  let (result, copied) = hash_and_close_lem D x h stream r b.1 (ground arith) in
                  (
                    stream,
                    k,
                    unfold hash_bytes in
                        ground
                          (arith, result, add_all-flatten h h.start stream.chunks (laws t h m)),
                    ground (arith, copied),
                  )
              | inl m ↦ absurd (ground arith)
            ]
            | inr (inl (x, l)) ↦ absurd (ground arith)
            | inr (inr l) ↦ absurd (ground arith)
          ]
      | inr (inl (x, k)) ↦ absurd (ground arith)
      | inr (inr k) ↦ absurd (ground arith)
    ]

-- What a hexadecimal digit stands for, and two of them for a byte.
abbrev nibble : ℕ → ℕ
nibble c = if ltb c 58 then c - 48 else c - 87

unfoldable pub unhex : Bytes → Bytes
unhex [] = []
unhex (c ∷ []) = []
unhex (c ∷ d ∷ s) = (16 * nibble c + nibble d) ∷ unhex s

nibble-hex_char : (n : ℕ) → n < 16 → nibble (hex_char n) ≡ n
nibble-hex_char n h = ground arith

-- The hexadecimal text of bytes can be read back, so different sums have different texts.
pub unhex-hash_bytes_from_sum :
    (sum : Bytes) → All (λ b. b < 256) sum → unhex (hash_bytes_from_sum sum) ≡ sum
unfolding unhex hash_bytes_from_sum
unhex-hash_bytes_from_sum [] h = refl
unhex-hash_bytes_from_sum (b ∷ sum) (small, h) =
    rw
      (
        nibble-hex_char (b / 16) (omega arith),
        nibble-hex_char (b % 16) (omega arith),
        unhex-hash_bytes_from_sum sum h,
      )
      (ap (λ n. n ∷ sum) (omega arith))
