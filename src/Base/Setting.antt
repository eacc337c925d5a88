-- ===== src/Base/Setting.antt =====
-- What a configuration takes from a map of strings and from the environment, in which a variable
-- that is not set reads as empty.
use mathlib.Core.Bool.{Bool, true, ◌||◌}
use mathlib.Core.List.{[], ◌∷◌}
use mathlib.Core.Option.{Option, none, some}
use omnistorage.Base.Equality.{Bytes, bytes_eq, ◌==◌, codes, if◌then◌else◌}
use omnistorage.Base.Int.{ℤ, pos, ltb_ℤ}
use omnistorage.Base.Dict.{Dict, lookup}
use omnistorage.Base.Decimal.{parse_int}

abbrev pub Settings : Type 0
Settings = Dict Bytes Bytes

-- `if v, ok := m[key]; ok { field = v }`
unfoldable pub text_of : Settings → Bytes → Bytes → Bytes
text_of m key before = elim (lookup key m) [ none ↦ before | some v ↦ v ]

abbrev positive_or : ℤ → Option ℤ → ℤ
positive_or before none = before
positive_or before (some n) = if ltb_ℤ (pos 0) n then n else before

-- `if n, err := strconv.Atoi(v); err == nil && n > 0 { field = n }`
unfoldable pub number_in : Bytes → ℤ → ℤ
number_in v before = positive_or before (parse_int v)

unfoldable pub number_of : Settings → Bytes → ℤ → ℤ
unfolding number_in
number_of m key before = elim (lookup key m) [ none ↦ before | some v ↦ number_in v before ]

-- `v == "true" || v == "1"`
unfoldable pub is_yes : Bytes → Bool
is_yes v = v == codes "true" || v == codes "1"

unfoldable pub flag_of : Settings → Bytes → Bool → Bool
unfolding is_yes
flag_of m key before = elim (lookup key m) [
  | none ↦ before
  | some v ↦ if is_yes v then true else before
]

-- `os.Getenv`
abbrev pub Environ : Type 0
Environ = Bytes → Bytes

-- `if v := os.Getenv(key); v != "" { field = v }`
unfoldable pub text_env : Environ → Bytes → Bytes → Bytes
text_env env key before = elim (env key) [ [] ↦ before | c ∷ s ↦ c ∷ s ]

unfoldable pub number_env : Environ → Bytes → ℤ → ℤ
unfolding number_in
number_env env key before = elim (env key) [ [] ↦ before | c ∷ s ↦ number_in (c ∷ s) before ]
