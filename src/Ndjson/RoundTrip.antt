-- ===== src/Ndjson/RoundTrip.antt =====
-- Records that were written are read again, and `Read` always returns.
use omnistorage.Base.{
  ℕ, zero, suc, ◌+◌, ◌<◌, Bytes, nat_eq, ◌≡◌, ◌≢◌, Bool, true, false, List, [], ◌∷◌, ◌++◌, some,
  Error, eof, Result, ok, err, panic, length, arith, if◌then◌else◌, ◌==◌, Option-cases, Bool-cases,
  inl, inr,
}
use omnistorage.Base.Action.{◌>>◌}
use omnistorage.Ndjson.Buffer.{Sink}
use omnistorage.Ndjson.Writer.{new_writer, newline, close}
use omnistorage.Ndjson.WriterLaws.{IsHonest, lines, write_records, session_lem}
use omnistorage.Ndjson.Scanner.{Scanner, split_line, drop_cr, scan, is_blank}
use omnistorage.Ndjson.Reader.{Reader, new_reader, read_loop, read}

unfoldable pub has_newline : Bytes → Bool
has_newline [] = false
has_newline (c ∷ s) = let rest = has_newline s in if c == 10 then true else rest

-- A record that a line of a reader with that size of buffer can hold.
pub record IsRecord (size : ℕ) (r : Bytes) : Type 0 where
  pub one_line : has_newline r ≡ false
  pub no_blank : is_blank r ≡ false
  pub no_cr : drop_cr r ≡ r
  pub short : length r < size

abbrev pub AllRecords : ℕ → List Bytes → Type 0
AllRecords size [] = Unit
AllRecords size (r ∷ rs) = IsRecord size r × AllRecords size rs

pub split_line_lem :
    (r rest : Bytes) → has_newline r ≡ false → split_line (r ++ (newline ∷ rest)) ≡ some (r, rest)
unfolding split_line has_newline
split_line_lem [] rest h = ground arith
split_line_lem (c ∷ r) rest h = ground (arith, split_line_lem r rest)

split_line-shorter :
    (s line rest : Bytes)
    → split_line s ≡ some (line, rest)
    → suc (length line + length rest) ≡ length s
unfolding split_line
split_line-shorter [] line rest e = absurd cc
split_line-shorter (c ∷ s) line rest e = elim (Option-cases (split_line s)) [
  | inl k ↦ ground arith
  | inr ((l, t), k) ↦ ground (arith, split_line-shorter s l t k)
]

-- A token takes a byte at least.
pub scan-shorter :
    (size : ℕ) (sc : Scanner) (line : Bytes)
    → (scan size sc).0 ≡ some line
    → length (scan size sc).1.input < length sc.input
unfolding scan
scan-shorter size sc line e = elim (Option-cases (split_line sc.input)) [
  | inl k ↦ ground arith
  | inr ((l, t), k) ↦ ground (arith, split_line-shorter sc.input l t k)
]

read_loop_returns :
    (size fuel : ℕ) (sc : Scanner) → length sc.input < fuel → (read_loop size fuel sc).0 ≢ panic
unfolding read_loop
read_loop_returns size zero sc h e = absurd (omega arith)
read_loop_returns size (suc fuel) sc h e =
    let t = scan size sc in
    elim (Option-cases t.0) [
      | inl k ↦ ground arith
      | inr (line, k) ↦ elim (Bool-cases (is_blank line)) [
        | inl b ↦
            read_loop_returns size fuel t.1 (omega (arith, scan-shorter size sc line k))
              (ground arith)
        | inr b ↦ ground arith
      ]
    ]

-- Whatever the input and the size of the buffer are, `Read` returns a record or an error.
pub read_returns : (size : ℕ) (r : Reader) → (read size r).0 ≢ panic
unfolding read
read_returns size r e =
    ground (arith, read_loop_returns size (suc (length r.scanner.input)) r.scanner)

pub scan_line :
    (size : ℕ) (r rest : Bytes) (failure : Error)
    → IsRecord size r
    → scan size (record { input = r ++ (newline ∷ rest); failure = failure; stopped = false })
      ≡ (some r, record { input = rest; failure = failure; stopped = false })
unfolding scan
scan_line size r rest failure h = ground (arith, split_line_lem r rest h.one_line, h.short, h.no_cr)

read_line :
    (size : ℕ) (r rest : Bytes) (failure : Error)
    → IsRecord size r
    → read size (new_reader (r ++ (newline ∷ rest)) failure) ≡ (ok r, new_reader rest failure)
unfolding read read_loop
read_line size r rest failure h = ground (arith, scan_line size r rest failure h, h.no_blank)

read_end : (size : ℕ) (failure : Error) → (read (suc size) (new_reader [] failure)).0 ≡ err failure
unfolding read read_loop scan split_line
read_end size failure = ground arith

-- What a client collects that reads until something fails, and that.
unfoldable pub read_all : ℕ → ℕ → Reader → List Bytes × Result Bytes
read_all size zero r = ([], panic)
read_all size (suc fuel) r =
    let (res, r') = read size r in
    elim res [
      | ok line ↦ let (more, e) = read_all size fuel r' in (line ∷ more, e)
      | err e ↦ ([], err e)
      | panic ↦ ([], panic)
    ]

read_all-lines :
    (size : ℕ) (rs : List Bytes) (failure : Error)
    → AllRecords (suc size) rs
    → read_all (suc size) (suc (length rs)) (new_reader (lines rs) failure) ≡ (rs, err failure)
unfolding read_all lines
read_all-lines size [] failure h = ground (arith, read_end size failure)
read_all-lines size (r ∷ rs) failure (h, hs) =
    ground (arith, read_line (suc size) r (lines rs) failure h, read_all-lines size rs failure hs)

-- Records, each one line that is not blank, does not end in a carriage return and is shorter than
-- the reader's buffer, are written to an empty place that loses nothing without an error; each
-- `Write` and the `Close` report success, whatever the size of the writer's buffer. A reader of
-- what is there then gives the records as they were, in their order, and then `io.EOF`.
pub ndjson_round_trip :
    {W : Type 0} (D : Sink W) (log : W → Bytes)
    → IsHonest D log
    → (write_size read_size : ℕ) (rs : List Bytes) (w : W) → log w ≡ []
    → 0 < read_size
    → AllRecords read_size rs
    → ((write_records D write_size rs >> close D) (w, new_writer)).0 ≡ ok tt
    → read_all read_size
        (suc (length rs))
        (new_reader (log ((write_records D write_size rs >> close D) (w, new_writer)).1.0) eof)
      ≡ (rs, err eof)
ndjson_round_trip D log h write_size zero rs w empty p records e = absurd (omega arith)
ndjson_round_trip D log h write_size (suc n) rs w empty p records e =
    rw (session_lem D write_size log h rs w e, empty) (read_all-lines n rs eof records)
