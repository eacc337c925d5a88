-- ===== src/Sync/Filter.antt =====
-- sync/filter/filter.go: which files take part in a run.
pub mod Build
pub mod FileLaws
use omnistorage.Base.{
  ℕ, Bytes, bytes_eq, nat_eq, Bool, true, false, not, ◌&&◌, ◌||◌, List, [], ◌∷◌, ◌++◌, codes, ◌==◌,
  if◌then◌else◌,
}
use omnistorage.Base.Int.{pos, ℤ, sub_ℕ, ltb_ℤ}
use omnistorage.Paths.Text.{slash, contains_text}

-- A rule with the field that its type uses.
pub data Rule : Type 0 where
  rule_include rule_exclude : Bytes → Rule
  rule_min_size rule_max_size rule_min_age rule_max_age : ℤ → Rule

pub record FilterInfo : Type 0 where
  pub path : Bytes
  pub size : ℤ
  pub mod_time : ℕ
  pub is_dir : Bool

-- `filepath.Base`: what stands behind the last slash, when slashes at the end are cut off.
abbrev pub all_slashes : Bytes → Bool
all_slashes [] = true
all_slashes (c ∷ s) = c == slash && all_slashes s

-- The first field of a path without leading slashes, and whether anything but slashes follows.
unfoldable pub last_field : Bytes → Bytes → Bytes
last_field field [] = field
last_field field (c ∷ s) =
    if all_slashes (c ∷ s)
    then field
    else last_field (if c == slash then [] else field ++ (c ∷ [])) s

unfoldable pub base_name : Bytes → Bytes
base_name [] = codes "."
base_name (c ∷ s) = if all_slashes (c ∷ s) then codes "/" else last_field [] (c ∷ s)

abbrev star : ℕ
star = b'*'

-- `strings.ReplaceAll(pattern, "**", "*")`, and whether `**` is in it.
unfoldable pub single_stars : Bytes → Bytes
single_stars [] = []
single_stars (c ∷ []) = c ∷ []
single_stars (c ∷ d ∷ s) =
    let pair = star ∷ single_stars s in
    let single = c ∷ single_stars (d ∷ s) in if c == star && d == star then pair else single

-- `filepath.Match` is a parameter, and a malformed pattern matches nothing.
module _ (glob : Bytes → Bytes → Bool) where
  unfoldable pub match_pattern : Bytes → Bytes → Bool
  match_pattern pattern path =
      glob pattern path
      || (glob pattern (base_name path)
          || (contains_text pattern (codes "**")
              && (glob (single_stars pattern) path
                  || glob (single_stars pattern) (base_name path))))

  -- The first loop of `Match`.
  unfoldable pub has_includes : List Rule → Bool
  has_includes [] = false
  has_includes (rule_include _ ∷ rules) = true
  has_includes (_ ∷ rules) = has_includes rules

  unfoldable pub matches_include : Bytes → List Rule → Bool
  matches_include path [] = false
  matches_include path (rule_include pattern ∷ rules) =
      match_pattern pattern path || matches_include path rules
  matches_include path (_ ∷ rules) = matches_include path rules

  -- One round of the second loop: false where it returns.
  unfoldable pub passes : ℕ → FilterInfo → Rule → Bool
  passes now fi (rule_include pattern) = true
  passes now fi (rule_exclude pattern) = not (match_pattern pattern fi.path)
  passes now fi (rule_min_size size) = not (ltb_ℤ fi.size size)
  passes now fi (rule_max_size size) = not (ltb_ℤ size fi.size)
  passes now fi (rule_min_age age) = not (ltb_ℤ (sub_ℕ now fi.mod_time) age)
  passes now fi (rule_max_age age) = not (ltb_ℤ age (sub_ℕ now fi.mod_time))

  unfoldable pub passes_all : ℕ → FilterInfo → List Rule → Bool
  passes_all now fi [] = true
  passes_all now fi (r ∷ rules) = if passes now fi r then passes_all now fi rules else false

  -- `Filter.Match` at the time `now`. Neither a nil filter nor one without rules refuses a file.
  unfoldable pub match : ℕ → List Rule → FilterInfo → Bool
  unfolding has_includes matches_include passes_all
  match now [] fi = true
  match now (r ∷ rules) fi =
      if has_includes (r ∷ rules) && not (matches_include fi.path (r ∷ rules))
      then false
      else passes_all now fi (r ∷ rules)

  -- `Filter.MatchPath`: the size and the time are zero.
  unfoldable pub match_path : ℕ → List Rule → Bytes → Bool
  unfolding match
  match_path now rules path =
      match now rules (record { path = path; size = pos 0; mod_time = 0; is_dir = false })
