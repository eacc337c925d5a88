-- ===== src/Ndjson.antt =====
-- format/ndjson: records as lines. `bufio.Writer` and `bufio.Scanner` of the standard library are
-- in Buffer and Scanner.
pub mod Buffer
pub mod Writer
pub mod WriterLaws
pub mod Scanner
pub mod Reader
pub mod RoundTrip
