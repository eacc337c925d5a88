-- ===== src/Tests/Compress.antt =====
-- A codec that keeps what it is given, and the theorems on the wrappers.
use omnistorage.Base.{
  ℕ, suc, ◌+◌, Bytes, ◌≡◌, refl, true, false, List, [], ◌∷◌, ◌++◌, codes, closed_pipe,
  permission_denied, ok, err, length, if◌then◌else◌,
}
use omnistorage.Base.Int.{negsuc}
use omnistorage.Compress.Gzip
use omnistorage.Compress.Wrapper.{Wrapped}
use omnistorage.Compress.Closings.{Call, write, close, LeavesOpen, has_close}
use omnistorage.Compress.Once.{calls_gzip, gzip_closes_once}

-- What has been written, and how often the file below has been closed.
record Disk : Type 0 where
  written : Bytes
  closings : ℕ

abbrev gzip : Gzip.Library Disk
gzip = record {
  Sink = Unit {0};
  Source = Unit {0};
  Encoder = Unit {0};
  Decoder = Unit {0};
  Header = Unit {0};
  new_encoder = λ sink level d. (ok tt, d);
  write = λ e p d. (ok (length p), record d { written = d.written ++ p });
  flush = λ e d. (ok tt, d);
  -- The last bytes cannot be written.
  close_encoder = λ e d. (err permission_denied, d);
  new_decoder = λ source d. (ok tt, d);
  read = λ r n d. (ok d.written, d);
  header = λ r. tt;
  close_decoder = λ r d. (ok tt, d);
  close_sink = λ sink d. (ok tt, record d { closings = suc d.closings });
  close_source = λ source d. (ok tt, record d { closings = suc d.closings });
}

gzip-LeavesOpen :
    LeavesOpen gzip.write gzip.flush gzip.close_encoder gzip.close_sink (λ sink d. d.closings)
gzip-LeavesOpen = record {
  by_write = λ c p s w. refl;
  by_flush = λ c s w. refl;
  by_close = λ c s w. refl;
  close_returns = λ c w h. cc;
  by_below = λ s w. refl;
}

abbrev blank : Disk
blank = record { written = []; closings = 0 }

abbrev opened : Wrapped (Unit {0}) (Unit {0})
opened = record { codec = tt; closer = tt; closed = false }

abbrev calls : List Call
calls = write (codes "ab") ∷ close ∷ write (codes "c") ∷ close ∷ []

made : (Gzip.new_writer_level gzip tt (negsuc 0) blank).0 ≡ ok opened
unfolding Gzip.new_writer_level
made = refl

gzip_closes_once_example :
    let t = calls_gzip gzip calls (blank, opened) in
    (t.0.closings ≡ 0 + (if has_close calls then 1 else 0))
    × (has_close calls ≡ true
        → ((p : Bytes) → Gzip.write gzip p t ≡ (err closed_pipe, t))
          × (Gzip.flush gzip t ≡ (err closed_pipe, t))
          × (Gzip.close_writer gzip t ≡ (ok tt, t)))
gzip_closes_once_example =
    gzip_closes_once gzip (λ sink d. d.closings) gzip-LeavesOpen calls tt (negsuc 0) blank opened
      made blank

-- The error of the codec is told, and the file below is closed.
failed_close :
    Gzip.close_writer gzip (blank, opened)
    ≡ (err permission_denied, (record blank { closings = 1 }, record opened { closed = true }))
unfolding Gzip.close_writer
failed_close = refl
