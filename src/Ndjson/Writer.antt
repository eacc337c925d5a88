-- ===== src/Ndjson/Writer.antt =====
-- format/ndjson/writer.go
use omnistorage.Base.{
  ℕ, zero, suc, Bytes, Bool, true, false, ◌||◌, [], ◌∷◌, ok, err, panic, writer_closed,
  if◌then◌else◌, nat_eq, ◌==◌,
}
use omnistorage.Base.Int.{ℤ, pos, negsuc}
use omnistorage.Base.Action.{Action, ◌>>◌}
use omnistorage.Ndjson.Buffer.{Sink, Buffer, empty_buffer, write_buffer, flush_buffer}

pub record Writer : Type 0 where
  pub buffer : Buffer
  pub closed : Bool

-- `DefaultBufferSize`
abbrev pub default_buffer_size : ℕ
default_buffer_size = 65536

-- `bufio.NewWriterSize` takes a size that is not positive for 4096.
abbrev pub buffer_size_of : ℤ → ℕ
buffer_size_of (pos zero) = 4096
buffer_size_of (pos (suc n)) = suc n
buffer_size_of (negsuc n) = 4096

-- `NewWriterSize`; `NewWriter` is that with the default size.
abbrev pub new_writer : Writer
new_writer = record { buffer = empty_buffer; closed = false }

abbrev pub newline : ℕ
newline = 10

-- The cut set " \t\r\n".
abbrev is_cut : ℕ → Bool
is_cut c = c == 32 || (c == 9 || (c == 13 || c == 10))

-- `bytes.TrimRight`
unfoldable pub trim_right : Bytes → Bytes
trim_right [] = []
trim_right (c ∷ s) = elim (trim_right s) [
  | [] ↦ if is_cut c then [] else c ∷ []
  | d ∷ t ↦ c ∷ d ∷ t
]

module _ {W : Type 0} where
  -- A call of the buffer inside the writer.
  abbrev pub inside : {A : Type 0} → Action (W × Buffer) A → Action (W × Writer) A
  inside m (w, x) = let (r, (w', b)) = m (w, x.buffer) in (r, (w', record x { buffer = b }))

module _ {W : Type 0} (D : Sink W) (size : ℕ) where
  -- `Write`
  unfoldable pub write : Bytes → Action (W × Writer) (Unit {0})
  write data_bytes (w, x) =
      if x.closed
      then (err writer_closed, (w, x))
      else inside (write_buffer D size data_bytes >> write_buffer D size (newline ∷ [])) (w, x)

  -- `WriteJSON`
  unfoldable pub write_json : Bytes → Action (W × Writer) (Unit {0})
  unfolding write trim_right
  write_json data_bytes = write (trim_right data_bytes)

module _ {W : Type 0} (D : Sink W) where
  unfoldable pub flush : Action (W × Writer) (Unit {0})
  flush (w, x) = if x.closed then (err writer_closed, (w, x)) else inside (flush_buffer D) (w, x)

  -- `Close`: a failure of the flush goes first, and the place is closed in any case.
  unfoldable pub close : Action (W × Writer) (Unit {0})
  close (w, x) =
      if x.closed
      then (ok tt, (w, x))
      else let (r, (w', y)) = inside (flush_buffer D) (w, record x { closed = true }) in
        elim r [
          | ok _ ↦ let (r', w'') = D.close w' in (r', (w'', y))
          | err e ↦ (err e, ((D.close w').1, y))
          | panic ↦ (panic, (w', y))
        ]
