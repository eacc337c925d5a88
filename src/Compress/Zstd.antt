-- ===== src/Compress/Zstd.antt =====
-- compress/zstd: writer.go and reader.go, over github.com/klauspost/compress/zstd.
use omnistorage.Base.{ℕ, Bytes, nat_eq, false, List, [], ◌∷◌, ok, if◌then◌else◌, ◌==◌}
use omnistorage.Base.Int.{ℤ, pos, int_eq}
use omnistorage.Base.Action.{Action, ◌>>=◌, pure}
use omnistorage.Compress.Wrapper.{Wrapped, unless_closed, close_both}

-- The package, over a world `W`; a level is an option of an encoder.
pub record Library (W : Type 0) : Type 1 where
  pub Sink : Type 0
  pub Source : Type 0
  pub Encoder : Type 0
  pub Decoder : Type 0
  pub EncoderLevel : Type 0
  pub EncoderOption : Type 0
  pub DecoderOption : Type 0
  pub speed_fastest : EncoderLevel
  pub speed_default : EncoderLevel
  pub speed_better_compression : EncoderLevel
  pub speed_best_compression : EncoderLevel
  pub with_encoder_level : EncoderLevel → EncoderOption
  pub new_encoder : Sink → List EncoderOption → Action W Encoder
  pub write : Encoder → Bytes → Action W ℕ
  pub flush : Encoder → Action W (Unit {0})
  pub close_encoder : Encoder → Action W (Unit {0})
  pub new_decoder : Source → List DecoderOption → Action W Decoder
  pub read : Decoder → ℕ → Action W Bytes
  pub close_decoder : Decoder → W → W
  pub close_sink : Sink → Action W (Unit {0})
  pub close_source : Source → Action W (Unit {0})

-- `SpeedDefault`
abbrev pub speed_default : ℤ
speed_default = pos 2

module _ {W : Type 0} (L : Library W) where
  -- `toZstdLevel`; the constants begin at 1.
  unfoldable pub to_zstd_level : ℤ → L.EncoderLevel
  to_zstd_level level =
      if level == pos 1
      then L.speed_fastest
      else if level == pos 2
      then L.speed_default
      else if level == pos 3
      then L.speed_better_compression
      else if level == pos 4
      then L.speed_best_compression
      else L.speed_default

  abbrev pub Writer : Type 0
  Writer = Wrapped L.Encoder L.Sink

  abbrev pub Reader : Type 0
  Reader = Wrapped L.Decoder L.Source

  unfoldable pub new_writer_with_options : L.Sink → List L.EncoderOption → Action W Writer
  new_writer_with_options sink opts =
      L.new_encoder sink opts >>= λ zw. pure (record { codec = zw; closer = sink; closed = false })

  unfoldable pub new_writer_level : L.Sink → ℤ → Action W Writer
  unfolding to_zstd_level
  new_writer_level sink level =
      L.new_encoder sink (L.with_encoder_level (to_zstd_level level) ∷ []) >>= λ zw.
      pure (record { codec = zw; closer = sink; closed = false })

  unfoldable pub new_writer : L.Sink → Action W Writer
  unfolding new_writer_level
  new_writer sink = new_writer_level sink speed_default

  unfoldable pub write : Bytes → Action (W × Writer) ℕ
  write p = unless_closed (λ zw. L.write zw p)

  unfoldable pub flush : Action (W × Writer) (Unit {0})
  flush = unless_closed L.flush

  unfoldable pub close_writer : Action (W × Writer) (Unit {0})
  close_writer = close_both L.close_encoder L.close_sink

  unfoldable pub new_reader_with_options : L.Source → List L.DecoderOption → Action W Reader
  new_reader_with_options source opts = L.new_decoder source opts >>= λ zr.
      pure (record { codec = zr; closer = source; closed = false })

  unfoldable pub new_reader : L.Source → Action W Reader
  new_reader source = L.new_decoder source [] >>= λ zr.
      pure (record { codec = zr; closer = source; closed = false })

  unfoldable pub read : ℕ → Action (W × Reader) Bytes
  read n = unless_closed (λ zr. L.read zr n)

  -- A close of the decoder gives no error.
  unfoldable pub close_reader : Action (W × Reader) (Unit {0})
  close_reader = close_both (λ zr w. (ok tt, L.close_decoder zr w)) L.close_source
