-- ===== src/Memory/RoundTrip.antt =====
-- What a client reads back: a file through a writer and a reader, a range of it, and the bytes of
-- a reader piece by piece.
use mathlib.Core.List
use mathlib.Core.List.{flatten}
use omnistorage.Base.{
  ℕ, zero, suc, ◌<◌, Bytes, bytes_eq, ◌≡◌, refl, ap, ◌∙◌, ◌≢◌, false, List, [], ◌∷◌, ◌++◌,
}
use omnistorage.Base.{
  none, some, arith, Result, ok, err, panic, Context, take, drop, length, eof, if◌then◌else◌, ◌==◌,
}
use omnistorage.Base.{take-append-drop, take_of_length-le, drop_of_length-le, length-drop, ltb}
use omnistorage.Base.Int.{pos}
use omnistorage.Base.Action.{Action}
use omnistorage.Base.Dict
use omnistorage.Options.{WriterOption, ReaderConfig, apply_writer_options}
use omnistorage.Paths.Normal.{normalize_path, validate_path}
use omnistorage.Memory.State.{Object, Backend, entries, object_at, store}
use omnistorage.Memory.Query.{new_reader, apply_offset, apply_limit}
use omnistorage.Memory.Stream.{
  MemoryWriter, new_writer, write, close_writer, object_of, MemoryReader, read,
}
use omnistorage.Memory.Invariant.{IsValid}

pub object_at-store :
    (p q : Bytes) (obj : Object) (b : Backend)
    → b.objects ≢ none
    → object_at q (store p obj b).1 ≡ (if q == p then some obj else object_at q b)
unfolding store
object_at-store p q obj b h = ground (arith, Dict.lookup-insert q p obj (entries b))

closed-store : (p : Bytes) (obj : Object) (b : Backend) → (store p obj b).1.closed ≡ b.closed
unfolding store
closed-store p obj b = ground arith

-- A client hands the chunks to a writer one by one.
abbrev pub write_all : List Bytes → MemoryWriter → MemoryWriter
write_all [] w = w
write_all (chunk ∷ chunks) w = write_all chunks (write chunk w).1

abbrev open_writer : Bytes → Bytes → Bytes → MemoryWriter
open_writer path buffer content_type = record {
  path = path;
  buffer = buffer;
  content_type = content_type;
  closed = false;
}

write_all_open :
    (chunks : List Bytes) (path buffer content_type : Bytes)
    → write_all chunks (open_writer path buffer content_type)
      ≡ open_writer path (buffer ++ flatten chunks) content_type
unfolding write flatten
write_all_open [] path buffer content_type = rw List.append-nil
write_all_open (chunk ∷ chunks) path buffer content_type =
    write_all_open chunks path (buffer ++ chunk) content_type ∙ rw List.append_assoc

abbrev write_and_close :
    List Bytes → ℕ → Result MemoryWriter × Backend → Result (Unit {0}) × Backend
write_and_close chunks now (ok w, b) =
    let (r, s) = close_writer now (write_all chunks w, b) in (r, s.1)
write_and_close chunks now (err e, b) = (err e, b)
write_and_close chunks now (panic, b) = (panic, b)

-- `NewWriter`, a `Write` for each chunk, and `Close`.
unfoldable pub put_file :
    Context → Bytes → List WriterOption → List Bytes → ℕ → Action Backend (Unit {0})
put_file ctx p opts chunks now b = write_and_close chunks now (new_writer ctx p opts b)

-- The range that a configuration asks for.
abbrev pub range : ReaderConfig → Bytes → Bytes
range config bytes = apply_limit config.limit (apply_offset config.offset bytes)

-- `WithOffset(o)` and `WithLimit(l)` give the `l` bytes from `o` on, as far as there are so many,
-- and a limit of zero is none.
pub range_lem :
    (o l : ℕ) (bytes : Bytes)
    → apply_limit (pos l) (apply_offset (pos o) bytes)
      ≡ (if ltb 0 l then take l (drop o bytes) else drop o bytes)
unfolding apply_limit apply_offset
range_lem o l bytes = ground (
  arith,
  drop_of_length-le o bytes,
  take_of_length-le l (drop o bytes),
  take_of_length-le l bytes,
)

-- What a client collects that reads `n` bytes at a time until the reader fails, and that failure.
unfoldable pub drain : ℕ → ℕ → MemoryReader → Bytes × Result Bytes
drain zero n r = ([], ok [])
drain (suc fuel) n r =
    let (got, r') = read n r in
    elim got [
      | ok bytes ↦ let (more, e) = drain fuel n r' in (bytes ++ more, e)
      | err e ↦ ([], err e)
      | panic ↦ ([], panic)
    ]

drain_rest :
    (fuel m : ℕ) (rest : Bytes)
    → length rest < fuel
    → drain fuel (suc m) (record { rest = rest; closed = false }) ≡ (rest, err eof)
unfolding drain read
drain_rest zero m rest h = absurd (omega arith)
drain_rest (suc fuel) m [] h = refl
drain_rest (suc fuel) m (c ∷ s) h =
    rw (drain_rest fuel m (drop m s) (omega (arith, length-drop m s)), take-append-drop m s)

-- An open reader delivers all of its bytes and then the end, for any size of the buffer, within
-- as many reads as it has bytes and one more.
pub drain_all :
    (fuel n : ℕ) (rest : Bytes)
    → 0 < n
    → length rest < fuel
    → drain fuel n (record { rest = rest; closed = false }) ≡ (rest, err eof)
drain_all fuel zero rest p h = absurd (omega arith)
drain_all fuel (suc m) rest p h = drain_rest fuel m rest h

module _ (p : Bytes) (opts : List WriterOption) (chunks : List Bytes) (now : ℕ) (b : Backend)
    (valid : IsValid b) (unclosed : b.closed ≡ false) (accepted : validate_path p ≡ ok tt) where
  stored : Object
  stored = record {
    data_bytes = flatten chunks;
    content_type = (apply_writer_options opts).content_type;
    mod_time = now;
    is_dir = false;
  }

  new_writer_accepted :
      new_writer none p opts b ≡ (ok (open_writer (normalize_path p) [] stored.content_type), b)
  unfolding new_writer stored
  new_writer_accepted = ground (arith, unclosed, accepted)

  close_writer_open :
      (w : MemoryWriter)
      → w.closed ≡ false
      → let (r, s) = close_writer now (w, b) in
        ◌≡◌ {A = Result (Unit {0}) × Backend} (r, s.1) (store w.path (object_of now w) b)
  unfolding close_writer
  close_writer_open w h = ground (arith, unclosed)

  put_file-eq-store : put_file none p opts chunks now b ≡ store (normalize_path p) stored b
  unfolding put_file stored
  put_file-eq-store =
      ap (write_and_close chunks now) new_writer_accepted
      ∙ rw write_all_open (close_writer_open _ refl)

  -- After a file is written, a read of any path with the same normal form gives the range asked
  -- for of the chunks one after the other, and a read of another path gives what it gave before.
  pub new_reader-put_file :
      (q : Bytes) (config : ReaderConfig)
      → validate_path q ≡ ok tt
      → (new_reader none q config (put_file none p opts chunks now b).1).0 ≡ (
          if normalize_path q == normalize_path p
          then ok (range config (flatten chunks))
          else (new_reader none q config b).0)
  unfolding new_reader stored
  new_reader-put_file q config h = rw put_file-eq-store (
      ground (
        arith,
        object_at-store (normalize_path p) (normalize_path q) stored b (valid.live unclosed),
        closed-store (normalize_path p) stored b,
      ))
