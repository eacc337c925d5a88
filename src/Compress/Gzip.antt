-- ===== src/Compress/Gzip.antt =====
-- compress/gzip: writer.go and reader.go, over the package compress/gzip of the standard library.
use omnistorage.Base.{ℕ, Bytes, false}
use omnistorage.Base.Int.{ℤ, negsuc}
use omnistorage.Base.Action.{Action, ◌>>=◌, pure}
use omnistorage.Compress.Wrapper.{Wrapped, unless_closed, close_both}

-- The package, over a world `W` with what is written to (`Sink`) and read from (`Source`).
pub record Library (W : Type 0) : Type 1 where
  pub Sink : Type 0
  pub Source : Type 0
  pub Encoder : Type 0
  pub Decoder : Type 0
  pub Header : Type 0
  pub new_encoder : Sink → ℤ → Action W Encoder
  pub write : Encoder → Bytes → Action W ℕ
  pub flush : Encoder → Action W (Unit {0})
  pub close_encoder : Encoder → Action W (Unit {0})
  pub new_decoder : Source → Action W Decoder
  pub read : Decoder → ℕ → Action W Bytes
  pub header : Decoder → Header
  pub close_decoder : Decoder → Action W (Unit {0})
  pub close_sink : Sink → Action W (Unit {0})
  pub close_source : Source → Action W (Unit {0})

-- `CompressionLevel`
abbrev pub default_compression : ℤ
default_compression = negsuc 0

module _ {W : Type 0} (L : Library W) where
  abbrev pub Writer : Type 0
  Writer = Wrapped L.Encoder L.Sink

  abbrev pub Reader : Type 0
  Reader = Wrapped L.Decoder L.Source

  unfoldable pub new_writer_level : L.Sink → ℤ → Action W Writer
  new_writer_level sink level =
      L.new_encoder sink level >>= λ gw. pure (record { codec = gw; closer = sink; closed = false })

  unfoldable pub new_writer : L.Sink → Action W Writer
  unfolding new_writer_level
  new_writer sink = new_writer_level sink default_compression

  unfoldable pub write : Bytes → Action (W × Writer) ℕ
  write p = unless_closed (λ gw. L.write gw p)

  unfoldable pub flush : Action (W × Writer) (Unit {0})
  flush = unless_closed L.flush

  unfoldable pub close_writer : Action (W × Writer) (Unit {0})
  close_writer = close_both L.close_encoder L.close_sink

  unfoldable pub new_reader : L.Source → Action W Reader
  new_reader source =
      L.new_decoder source >>= λ gr. pure (record { codec = gr; closer = source; closed = false })

  -- A buffer of `n` bytes.
  unfoldable pub read : ℕ → Action (W × Reader) Bytes
  read n = unless_closed (λ gr. L.read gr n)

  unfoldable pub close_reader : Action (W × Reader) (Unit {0})
  close_reader = close_both L.close_decoder L.close_source

  -- `Header`, also of a reader that is closed.
  unfoldable pub header : Reader → L.Header
  header r = L.header r.codec
