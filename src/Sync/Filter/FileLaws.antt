-- ===== src/Sync/Filter/FileLaws.antt =====
-- What is read of a file of filter rules, line by line.
use omnistorage.Base.{
  ℕ, zero, suc, ◌<◌, Bytes, bytes_eq, nat_eq, ◌≡◌, ◌≢◌, refl, sym, ap, ◌∙◌, arith, true, false,
  List, [], ◌∷◌, ◌++◌, codes, Option, some, Error, ok, err, panic, ◌==◌, length, length-append,
  Bool-cases, Option-cases, inl, inr,
}
use mathlib.Core.List
use omnistorage.Paths.Text.{has_prefix, trim_prefix}
use omnistorage.Ndjson.Scanner.{Scanner, split_line, drop_cr, scan, trim_space}
use omnistorage.Ndjson.Writer.{newline}
use omnistorage.Ndjson.WriterLaws.{lines}
use omnistorage.Ndjson.RoundTrip.{has_newline, split_line_lem, scan-shorter}
use omnistorage.Sync.Filter.{Rule, rule_include, rule_exclude}
use omnistorage.Sync.Filter.Build.{
  FilterOption, add_option, apply_options, line_option, lines_loop, is_eof, from_file,
}

-- The lines of a file of rules. One without a sign excludes.
pub data Line : Type 0 where
  comment plus minus bare : Bytes → Line
  empty : Line

unfoldable pub print : Line → Bytes
print (comment t) = codes "#" ++ t
print (plus p) = codes "+ " ++ p
print (minus p) = codes "- " ++ p
print (bare p) = p
print empty = []

abbrev pub rules_of : Line → List Rule
rules_of (comment t) = []
rules_of (plus p) = rule_include p ∷ []
rules_of (minus p) = rule_exclude p ∷ []
rules_of (bare p) = rule_exclude p ∷ []
rules_of empty = []

abbrev pub IsBare : Line → Type 0
IsBare (bare p) =
    (p ≢ [])
    × (has_prefix p (codes "#") ≡ false)
    × (has_prefix p (codes "+ ") ≡ false)
    × (has_prefix p (codes "- ") ≡ false)
IsBare _ = Unit

-- A line that a buffer of the size can hold, without spaces at its ends, and that a pattern without a
-- sign does not make another kind of line.
pub record IsLine (size : ℕ) (l : Line) : Type 0 where
  pub one_line : has_newline (print l) ≡ false
  pub no_cr : drop_cr (print l) ≡ print l
  pub trimmed : trim_space (print l) ≡ print l
  pub short : length (print l) < size
  pub kind : IsBare l

abbrev pub AllLines : ℕ → List Line → Type 0
AllLines size [] = Unit
AllLines size (l ∷ ls) = IsLine size l × AllLines size ls

unfoldable pub printed : List Line → List Bytes
printed [] = []
printed (l ∷ ls) = print l ∷ printed ls

unfoldable pub all_rules : List Line → List Rule
all_rules [] = []
all_rules (l ∷ ls) = rules_of l ++ all_rules ls

line_option-bare :
    (p : Bytes) → IsBare (bare p) → line_option p ≡ some (λ rules. rules ++ (rule_exclude p ∷ []))
unfolding line_option
line_option-bare p (ne, hash, plus_sign, minus_sign) = elim (Bool-cases (p == [])) [
  | inl e ↦ absurd (ne (ground (arith, e)))
  | inr e ↦ rw (e, hash, plus_sign, minus_sign)
]

line_option_lem :
    (l : Line) (opts : List FilterOption) (rules : List Rule)
    → IsBare l
    → apply_options (add_option (line_option (print l)) opts) rules
      ≡ apply_options opts (rules ++ rules_of l)
unfolding line_option print apply_options has_prefix trim_prefix nat_eq bytes_eq
line_option_lem (comment t) opts rules h = rw List.append-nil
line_option_lem (plus p) opts rules h = refl
line_option_lem (minus p) opts rules h = refl
line_option_lem (bare p) opts rules h =
    ap (λ (o : Option FilterOption). apply_options (add_option o opts) rules) (line_option-bare p h)
line_option_lem empty opts rules h = rw List.append-nil

lines_loop_lem :
    (size fuel : ℕ) (ls : List Line) (failure : Error)
    → AllLines (suc size) ls
    → length ls < fuel
    → (opts : List FilterOption) × (lines_loop
          (suc size)
          fuel
          (record { input = lines (printed ls); failure = failure; stopped = false })
        ≡ ok (opts, failure))
      × ((rules : List Rule) → apply_options opts rules ≡ rules ++ all_rules ls)
unfolding lines_loop lines printed all_rules
lines_loop_lem size zero ls failure h few = absurd (omega arith)
lines_loop_lem size (suc fuel) [] failure h few = (
  [],
  unfold scan in unfold split_line in ground arith,
  λ rules. unfold apply_options in sym (List.append-nil rules),
)
lines_loop_lem size (suc fuel) (l ∷ ls) failure (h, hs) few =
    let (opts, e, means) = lines_loop_lem size fuel ls failure hs (omega arith) in
    let rest = lines (printed ls) in
    let line = split_line_lem (print l) rest h.one_line in
    (
      add_option (line_option (print l)) opts,
      unfold scan in ground (arith, line, e, h.no_cr, h.trimmed, h.short),
      λ rules.
          line_option_lem l opts rules h.kind
          ∙ means (rules ++ rules_of l)
          ∙ List.append_assoc rules (rules_of l) (all_rules ls),
    )

-- The bytes are at least as many as the lines.
length-lines : (ls : List Line) → length ls < suc (length (lines (printed ls)))
unfolding lines printed
length-lines [] = omega arith
length-lines (l ∷ ls) =
    omega (arith, length-lines ls, length-append (print l) (newline ∷ lines (printed ls)))

-- A file whose lines each fit into the buffer, have no space at either end and do not end in a
-- carriage return gives the rules of its lines in their order, behind those that the filter has: a
-- line behind "+ " includes, one behind "- " excludes, an empty line and one behind "#" give none,
-- and every other line excludes, one that begins with a sign without a space behind it included. If
-- the file cannot be read to its end, `FromFile` gives that error, and no rules.
pub from_file-printed :
    (size : ℕ) (ls : List Line) (failure : Error)
    → AllLines (suc size) ls
    → (is_eof failure ≡ true
        → (opt : FilterOption) × (from_file (suc size) (ok (lines (printed ls), failure)) ≡ ok opt)
          × ((rules : List Rule) → opt rules ≡ rules ++ all_rules ls))
      × (is_eof failure ≡ false
          → from_file (suc size) (ok (lines (printed ls), failure)) ≡ err failure)
unfolding from_file
from_file-printed size ls failure h =
    let input = lines (printed ls) in
    let (opts, e, means) =
      lines_loop_lem size (suc (length input)) ls failure h (length-lines ls) in
    (
      (λ ended. (apply_options opts, ground (arith, e, ended), means)),
      (λ failed. ground (arith, e, failed)),
    )

lines_loop_returns :
    (size fuel : ℕ) (sc : Scanner)
    → length sc.input < fuel
    → (r : List FilterOption × Error) × (lines_loop size fuel sc ≡ ok r)
unfolding lines_loop
lines_loop_returns size zero sc h = absurd (omega arith)
lines_loop_returns size (suc fuel) sc h =
    let t = scan size sc in
    elim (Option-cases t.0) [
      | inl k ↦ (([], t.1.failure), ground (arith, k))
      | inr (line, k) ↦
          let ((opts, e), rest) =
            lines_loop_returns size fuel t.1 (omega (arith, scan-shorter size sc line k)) in
          ((add_option (line_option (trim_space line)) opts, e), ground (arith, k, rest))
    ]

-- Whatever is in a file that is open, and however long its lines are, `FromFile` returns.
pub from_file_returns :
    (size : ℕ) (input : Bytes) (failure : Error) → from_file size (ok (input, failure)) ≢ panic
unfolding from_file
from_file_returns size input failure e =
    let sc : Scanner = record { input = input; failure = failure; stopped = false } in
    let (r, loop) = lines_loop_returns size (suc (length input)) sc (omega arith) in
    ground (arith, loop, e, Bool-cases (is_eof r.1))
