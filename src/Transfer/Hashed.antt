-- ===== src/Transfer/Hashed.antt =====
-- copy.go and hash.go: a copy that computes the hash of what it copies. The hash functions are the
-- standard library's and a parameter: `NewHash` gives a hasher of a type, or nil.
use omnistorage.Base.{
  ℕ, ◌+◌, ◌/◌, ◌%◌, Bytes, List, [], ◌∷◌, Option, none, some, Error, not_supported, ok, err, panic,
  if◌then◌else◌, ltb,
}
use omnistorage.Base.Action.{Action, ◌>>=◌, ◌>>◌, pure, fail}
use omnistorage.Features.{HashType}
use omnistorage.Options.{WriterOption}
use omnistorage.Backends.{Stream, Backend}

-- `hash.Hash`: its state, `Write` and `Sum(nil)`.
pub record Hasher : Type 1 where
  pub State : Type 0
  pub start : State
  pub add : State → Bytes → State
  pub sum : State → Bytes

-- `hexChars[n]`
abbrev pub hex_char : ℕ → ℕ
hex_char n = if ltb n 10 then 48 + n else 87 + n

-- `HashBytesFromSum`, and `hex.EncodeToString` as well.
unfoldable pub hash_bytes_from_sum : Bytes → Bytes
hash_bytes_from_sum [] = []
hash_bytes_from_sum (b ∷ sum) = hex_char (b / 16) ∷ hex_char (b % 16) ∷ hash_bytes_from_sum sum

module _ (new_hash : HashType → Option Hasher) where
  -- `HashBytes`
  unfoldable pub hash_bytes : Bytes → HashType → Bytes
  unfolding hash_bytes_from_sum
  hash_bytes data_bytes t = elim (new_hash t) [
    | none ↦ []
    | some h ↦ hash_bytes_from_sum (h.sum (h.add h.start data_bytes))
  ]

module _ {W : Type 0} where
  -- `io.Copy(io.MultiWriter(w, h), r)`: each chunk goes to the writer, and then to the hasher.
  unfoldable pub copy_hashed :
      (D : Backend W)
      → D.Writer
      → (h : Hasher) → h.State
      → List Bytes
      → Option Error
      → Action W h.State
  copy_hashed D w h s [] none = pure s
  copy_hashed D w h s [] (some e) = fail e
  copy_hashed D w h s (chunk ∷ chunks) failure =
      D.write w chunk >> copy_hashed D w h (h.add s chunk) chunks failure

  -- The writer is closed in any case, and an error of the copy goes first.
  unfoldable pub hash_and_close : (D : Backend W) → D.Writer → Hasher → Stream → Action W Bytes
  unfolding copy_hashed hash_bytes_from_sum
  hash_and_close D w h stream t =
      let (r, t') = copy_hashed D w h h.start stream.chunks stream.failure t in
      elim r [
        | ok s ↦ (D.close w >> pure (hash_bytes_from_sum (h.sum s))) t'
        | err e ↦ (err e, (D.close w t').1)
        | panic ↦ (panic, t')
      ]

  -- `CopyPathWithHash`: the type is looked at only when the writer is open, which empties what was
  -- at the destination.
  unfoldable pub copy_path_with_hash :
      (HashType → Option Hasher)
      → Backend W
      → Bytes
      → Backend W
      → Bytes
      → HashType
      → List WriterOption
      → Action W Bytes
  unfolding hash_and_close
  copy_path_with_hash new_hash S src D dst t opts = do
    stream ← S.new_reader src
    w ← D.new_writer dst opts
    elim (new_hash t) [
      | none ↦ λ s. (err not_supported, (D.close w s).1)
      | some h ↦ hash_and_close D w h stream
    ]
