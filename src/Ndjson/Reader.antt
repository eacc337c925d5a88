-- ===== src/Ndjson/Reader.antt =====
-- format/ndjson/reader.go. What the `Close` of the stream gives is a parameter.
use omnistorage.Base.{
  ℕ, zero, suc, Bytes, Bool, true, false, none, some, Error, Result, ok, err, panic, reader_closed,
  if◌then◌else◌, length,
}
use omnistorage.Ndjson.Scanner.{Scanner, scan, is_blank}

pub record Reader : Type 0 where
  pub scanner : Scanner
  pub closed : Bool

-- `NewReaderSize` of a stream that delivers `input` and ends with `failure`, which is `io.EOF`
-- where it ends well.
abbrev pub new_reader : Bytes → Error → Reader
new_reader input failure = record {
  scanner = record { input = input; failure = failure; stopped = false };
  closed = false;
}

-- The loop of `Read`: each round takes a byte at least, so that it ends before the fuel does.
unfoldable pub read_loop : ℕ → ℕ → Scanner → Result Bytes × Scanner
unfolding scan is_blank
read_loop size zero sc = (panic, sc)
read_loop size (suc fuel) sc =
    let (token, sc') = scan size sc in
    elim token [
      | none ↦ (err sc'.failure, sc')
      | some line ↦ elim (is_blank line) [ true ↦ read_loop size fuel sc' | false ↦ (ok line, sc') ]
    ]

-- `Read`
unfoldable pub read : ℕ → Reader → Result Bytes × Reader
unfolding read_loop
read size r =
    if r.closed
    then (err reader_closed, r)
    else let (res, sc) = read_loop size (suc (length r.scanner.input)) r.scanner in
      (res, record r { scanner = sc })

-- `Close`: the stream is closed once.
unfoldable pub close : Result (Unit {0}) → Reader → Result (Unit {0}) × Reader
close closing r = if r.closed then (ok tt, r) else (closing, record r { closed = true })
