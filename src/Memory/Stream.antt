-- ===== src/Memory/Stream.antt =====
-- `NewWriter` with `memoryWriter`, and `memoryReader`. A writer buffers what it is given and puts
-- it into the backend when it is closed.
use omnistorage.Base.{ℕ, Bytes, Bool, true, false, List, [], ◌∷◌, ◌++◌, ok, err}
use omnistorage.Base.{if◌then◌else◌, length, take, drop, Context, backend_closed, writer_closed}
use omnistorage.Base.{reader_closed, eof}
use omnistorage.Base.Action.{Action, ◌>>◌, pure}
use omnistorage.Options.{WriterOption, apply_writer_options}
use omnistorage.Paths.Normal.{normalize_path}
use omnistorage.Memory.State.{Object, Backend, guards, store}

pub record MemoryWriter : Type 0 where
  pub path : Bytes
  pub buffer : Bytes
  pub content_type : Bytes
  pub closed : Bool

unfoldable pub new_writer : Context → Bytes → List WriterOption → Action Backend MemoryWriter
unfolding apply_writer_options
new_writer ctx p opts =
    guards ctx p
    >> pure (record {
      path = normalize_path p;
      buffer = [];
      content_type = (apply_writer_options opts).content_type;
      closed = false;
    })

-- `memoryWriter.Write`
unfoldable pub write : Bytes → Action MemoryWriter ℕ
write p w =
    if w.closed
    then (err writer_closed, w)
    else (ok (length p), record w { buffer = w.buffer ++ p })

abbrev pub object_of : ℕ → MemoryWriter → Object
object_of now w = record {
  data_bytes = w.buffer;
  content_type = w.content_type;
  mod_time = now;
  is_dir = false;
}

-- `memoryWriter.Close`, at the time `now`. The writer is closed from here on, also when the
-- backend no longer takes its data.
unfoldable pub close_writer : ℕ → Action (MemoryWriter × Backend) (Unit {0})
close_writer now (w, b) =
    let w' = record w { closed = true } in
    if w.closed
    then (ok tt, (w, b))
    else if b.closed
    then (err backend_closed, (w', b))
    else let (r, b') = store w.path (object_of now w) b in (r, (w', b'))

-- What is left to read.
pub record MemoryReader : Type 0 where
  pub rest : Bytes
  pub closed : Bool

-- `memoryReader.Read` into a buffer of `n` bytes. `bytes.Reader` reports the end only when nothing
-- is left.
unfoldable pub read : ℕ → Action MemoryReader Bytes
read n r = if r.closed then (err reader_closed, r) else elim r.rest [
  | [] ↦ (err eof, r)
  | c ∷ s ↦ (ok (take n (c ∷ s)), record r { rest = drop n (c ∷ s) })
]

unfoldable pub close_reader : Action MemoryReader (Unit {0})
close_reader r = (ok tt, record r { closed = true })
