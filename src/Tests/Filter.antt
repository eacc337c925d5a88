-- ===== src/Tests/Filter.antt =====
-- A file of filter rules.
use omnistorage.Base.{
  bytes_eq, nat_eq, ◌≡◌, refl, true, false, List, [], ◌∷◌, ◌++◌, codes, eof, ok, err, arith, some,
}
use omnistorage.Paths.Text.{has_prefix, trim_prefix}
use omnistorage.Ndjson.Scanner.{drop_cr, is_blank, trim_front, trim_end, trim_space}
use omnistorage.Ndjson.WriterLaws.{lines}
use omnistorage.Ndjson.RoundTrip.{has_newline}
use omnistorage.Sync.Filter.{Rule}
use omnistorage.Sync.Filter.Build.{FilterOption, include, is_eof, line_option, from_file, max_token}
use omnistorage.Sync.Filter.FileLaws.{
  Line, comment, plus, minus, bare, empty, print, printed, all_rules, AllLines, from_file-printed,
}

abbrev rule_lines : List Line
rule_lines =
    comment (codes " JSON")
    ∷ plus (codes "*.json")
    ∷ empty
    ∷ minus (codes "*.tmp")
    ∷ bare (codes "*.bak")
    ∷ []

rule_lines-AllLines : AllLines max_token rule_lines
unfolding print has_newline drop_cr trim_space trim_front trim_end is_blank has_prefix nat_eq
    bytes_eq
rule_lines-AllLines = (
  record { one_line = refl; no_cr = refl; trimmed = refl; short = omega arith; kind = tt },
  (
    record { one_line = refl; no_cr = refl; trimmed = refl; short = omega arith; kind = tt },
    (
      record { one_line = refl; no_cr = refl; trimmed = refl; short = omega arith; kind = tt },
      (
        record { one_line = refl; no_cr = refl; trimmed = refl; short = omega arith; kind = tt },
        (
          record {
            one_line = refl;
            no_cr = refl;
            trimmed = refl;
            short = omega arith;
            kind = ((λ e. cc), refl, refl, refl);
          },
          tt,
        ),
      ),
    ),
  ),
)

from_file-printed_example :
    (is_eof eof ≡ true
      → (opt : FilterOption) × (from_file max_token (ok (lines (printed rule_lines), eof)) ≡ ok opt)
        × ((rules : List Rule) → opt rules ≡ rules ++ all_rules rule_lines))
    × (is_eof eof ≡ false → from_file max_token (ok (lines (printed rule_lines), eof)) ≡ err eof)
from_file-printed_example = from_file-printed 65535 rule_lines eof rule_lines-AllLines

-- A second space behind the sign stays in the pattern.
two_spaces : line_option (trim_space (codes "+  *.json ")) ≡ some (include (codes " *.json"))
unfolding line_option trim_space has_prefix trim_prefix nat_eq bytes_eq
two_spaces = refl
