-- ===== src/Sync/Filter/Build.antt =====
-- sync/filter/filter.go: the options that build a filter, and `FromFile`.
use omnistorage.Base.{
  ℕ, zero, suc, Bytes, bytes_eq, nat_eq, Bool, true, false, List, [], ◌∷◌, ◌++◌, codes, Option,
  none, some, Error, eof, Result, ok, err, panic, if◌then◌else◌, ◌==◌, length,
}
use omnistorage.Base.Int.{ℤ}
use omnistorage.Paths.Text.{has_prefix, trim_prefix}
use omnistorage.Ndjson.Scanner.{Scanner, scan, trim_space}
use omnistorage.Sync.Filter.{
  Rule, rule_include, rule_exclude, rule_min_size, rule_max_size, rule_min_age, rule_max_age,
}

-- `Filter`, which is nil or has rules.
abbrev pub Filter : Type 0
Filter = Option (List Rule)

-- `Option`, of a filter that is not nil.
abbrev pub FilterOption : Type 0
FilterOption = List Rule → List Rule

abbrev pub add_rule : Rule → FilterOption
add_rule r rules = rules ++ (r ∷ [])

abbrev pub include : Bytes → FilterOption
include pattern = add_rule (rule_include pattern)

abbrev pub exclude : Bytes → FilterOption
exclude pattern = add_rule (rule_exclude pattern)

abbrev pub min_size : ℤ → FilterOption
min_size size = add_rule (rule_min_size size)

abbrev pub max_size : ℤ → FilterOption
max_size size = add_rule (rule_max_size size)

abbrev pub min_age : ℤ → FilterOption
min_age d = add_rule (rule_min_age d)

abbrev pub max_age : ℤ → FilterOption
max_age d = add_rule (rule_max_age d)

-- The loops of `New` and of the option that `FromFile` returns.
unfoldable pub apply_options : List FilterOption → FilterOption
apply_options [] rules = rules
apply_options (opt ∷ opts) rules = apply_options opts (opt rules)

unfoldable pub new : List FilterOption → List Rule
unfolding apply_options
new opts = apply_options opts []

-- What a line gives when its spaces are trimmed.
unfoldable pub line_option : Bytes → Option FilterOption
line_option line =
    if line == []
    then none
    else if has_prefix line (codes "#")
    then none
    else if has_prefix line (codes "+ ")
    then some (include (trim_prefix line (codes "+ ")))
    else if has_prefix line (codes "- ")
    then some (exclude (trim_prefix line (codes "- ")))
    else some (exclude line)

abbrev pub add_option : Option FilterOption → List FilterOption → List FilterOption
add_option none opts = opts
add_option (some opt) opts = opt ∷ opts

-- `bufio.MaxScanTokenSize`
abbrev pub max_token : ℕ
max_token = 65536

-- The loop of `FromFile`, with a buffer of `size` bytes: the options, and what ended the scan. Each
-- round takes a byte at least.
unfoldable pub lines_loop : ℕ → ℕ → Scanner → Result (List FilterOption × Error)
unfolding scan trim_space line_option
lines_loop size zero sc = panic
lines_loop size (suc fuel) sc =
    let (token, sc') = scan size sc in
    elim token [
      | none ↦ ok ([], sc'.failure)
      | some line ↦ elim (lines_loop size fuel sc') [
        | ok (opts, e) ↦ ok (add_option (line_option (trim_space line)) opts, e)
        | err e ↦ err e
        | panic ↦ panic
      ]
    ]

abbrev pub is_eof : Error → Bool
is_eof eof = true
is_eof _ = false

-- `FromFile`: `file` is what `os.Open` gives, which delivers bytes and ends with an error.
unfoldable pub from_file : ℕ → Result (Bytes × Error) → Result FilterOption
unfolding lines_loop
from_file size file = elim file [
  | err e ↦ err e
  | panic ↦ panic
  | ok (input, failure) ↦
      let sc : Scanner = record { input = input; failure = failure; stopped = false } in
      elim (lines_loop size (suc (length input)) sc) [
        | ok (opts, e) ↦ if is_eof e then ok (apply_options opts) else err e
        | err e ↦ err e
        | panic ↦ panic
      ]
]

unfoldable pub is_empty : Filter → Bool
is_empty none = true
is_empty (some []) = true
is_empty (some (r ∷ rules)) = false
