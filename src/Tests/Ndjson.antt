-- ===== src/Tests/Ndjson.antt =====
-- Two records through a buffer of four bytes.
use omnistorage.Base.{Bytes, bytes_eq, nat_eq, ◌≡◌, refl, [], ◌∷◌, ◌++◌, codes, ok, err, eof, arith}
use omnistorage.Base.Action.{◌>>◌}
use omnistorage.Ndjson.Buffer.{Sink, emit, flush_buffer, write_rest, write_buffer}
use omnistorage.Ndjson.Writer.{new_writer, write, close, write_json, trim_right}
use omnistorage.Ndjson.WriterLaws.{IsHonest, write_records}
use omnistorage.Ndjson.Scanner.{is_blank, drop_cr}
use omnistorage.Ndjson.Reader.{new_reader}
use omnistorage.Ndjson.RoundTrip.{has_newline, IsRecord, read_all, ndjson_round_trip}

abbrev memory : Sink Bytes
memory = record { put = λ p s. (ok tt, s ++ p); close = λ s. (ok tt, s) }

memory-IsHonest : IsHonest memory (λ s. s)
memory-IsHonest = record { put_log = λ p w e. refl; close_log = λ w. refl }

-- What the runs below compute through.
trimmed : Bytes → Bytes
unfolding trim_right write_json write close write_records emit flush_buffer write_rest write_buffer
    has_newline is_blank drop_cr nat_eq
trimmed s = trim_right s

trims : trimmed (codes "a \t ") ≡ codes "a"
unfolding trimmed
trims = refl

one-IsRecord : IsRecord 9 (codes "[1, 2]")
unfolding trimmed
one-IsRecord = record { one_line = refl; no_blank = refl; no_cr = refl; short = omega arith }

two-IsRecord : IsRecord 9 (codes "3")
unfolding trimmed
two-IsRecord = record { one_line = refl; no_blank = refl; no_cr = refl; short = omega arith }

all_taken :
    ((write_records memory 4 (codes "[1, 2]" ∷ codes "3" ∷ []) >> close memory) ([], new_writer)).0
    ≡ ok tt
unfolding trimmed
all_taken = refl

ndjson_round_trip_example :
    read_all 9 3 (
      new_reader
        ((write_records memory 4 (codes "[1, 2]" ∷ codes "3" ∷ []) >> close memory)
          ([], new_writer)).1.0
        eof)
    ≡ (codes "[1, 2]" ∷ codes "3" ∷ [], err eof)
ndjson_round_trip_example =
    ndjson_round_trip memory (λ s. s) memory-IsHonest 4 9 (codes "[1, 2]" ∷ codes "3" ∷ []) [] refl
      (omega arith) (one-IsRecord, (two-IsRecord, tt)) all_taken
