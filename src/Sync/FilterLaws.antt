-- ===== src/Sync/FilterLaws.antt =====
-- `Filter.Match` against its documentation, as a statement about the set of rules.
use omnistorage.Base.{
  ℕ, Bytes, ◌≡◌, refl, ◌↔◌, ◌⊎◌, inl, inr, Bool, true, false, not, ◌&&◌, List, [], ◌∷◌, arith,
  Bool-cases,
}
use omnistorage.Base.Int.{sub_ℕ, ◌≤ℤ◌}
use omnistorage.Sync.Filter.{
  Rule, rule_include, rule_exclude, rule_min_size, rule_max_size, rule_min_age, rule_max_age,
  FilterInfo, match_pattern, has_includes, matches_include, passes, passes_all, match,
}

-- The rule is one of the filter's.
abbrev pub Among : Rule → List Rule → Type 0
Among r [] = ⊥
Among r (s ∷ rules) = (r ≡ s) ⊎ Among r rules

module _ (glob : Bytes → Bytes → Bool) where
  -- What a rule asks of a file: not to match an exclude pattern, to be of at least or at most a
  -- size, and to be of at least or at most an age.
  abbrev pub Allows : ℕ → FilterInfo → Rule → Type 0
  Allows now fi (rule_include pattern) = Unit
  Allows now fi (rule_exclude pattern) = match_pattern glob pattern fi.path ≡ false
  Allows now fi (rule_min_size size) = size ≤ℤ fi.size
  Allows now fi (rule_max_size size) = fi.size ≤ℤ size
  Allows now fi (rule_min_age age) = age ≤ℤ sub_ℕ now fi.mod_time
  Allows now fi (rule_max_age age) = sub_ℕ now fi.mod_time ≤ℤ age

  passes_iff :
      (now : ℕ) (fi : FilterInfo) (r : Rule) → (passes glob now fi r ≡ true) ↔ Allows now fi r
  unfolding passes
  passes_iff now fi (rule_include pattern) = ((λ _. tt), λ _. refl)
  passes_iff now fi (rule_exclude pattern) = ground arith
  passes_iff now fi (rule_min_size size) = ground arith
  passes_iff now fi (rule_max_size size) = ground arith
  passes_iff now fi (rule_min_age age) = ground arith
  passes_iff now fi (rule_max_age age) = ground arith

  passes_all_iff :
      (now : ℕ) (fi : FilterInfo) (rules : List Rule)
      → (passes_all glob now fi rules ≡ true) ↔ ((r : Rule) → Among r rules → Allows now fi r)
  unfolding passes_all
  passes_all_iff now fi [] = ((λ _. λ r h. absurd h), λ _. refl)
  passes_all_iff now fi (s ∷ rules) = (
    (λ h r m. elim m [
      | inl e ↦ rw e ((passes_iff now fi s).0 (ground arith))
      | inr later ↦ (passes_all_iff now fi rules).0 (ground arith) r later
    ]),
    λ h.
        let first = (passes_iff now fi s).1 (h s (inl refl)) in
        let rest = (passes_all_iff now fi rules).1 (λ r m. h r (inr m)) in ground arith,
  )

  -- There is no include rule, or one that matches the path.
  abbrev pub Selected : Bytes → List Rule → Type 0
  Selected path rules =
      ((pattern : Bytes) → ¬ Among (rule_include pattern) rules)
      ⊎ ((pattern : Bytes) × Among (rule_include pattern) rules
          × (match_pattern glob pattern path ≡ true))

  no_includes :
      (rules : List Rule)
      → has_includes glob rules ≡ false
      → (pattern : Bytes) → ¬ Among (rule_include pattern) rules
  unfolding has_includes
  no_includes [] h pattern m = m
  no_includes (rule_include p ∷ rules) h pattern m = cc
  no_includes (_ ∷ rules) h pattern (inl e) = cc
  no_includes (_ ∷ rules) h pattern (inr m) = no_includes rules h pattern m

  include_found :
      (path : Bytes) (rules : List Rule)
      → matches_include glob path rules ≡ true
      → (pattern : Bytes) × Among (rule_include pattern) rules
        × (match_pattern glob pattern path ≡ true)
  unfolding matches_include
  include_found path [] h = cc
  include_found path (rule_include p ∷ rules) h = elim (Bool-cases (match_pattern glob p path)) [
    | inl e ↦ (p, inl refl, e)
    | inr e ↦ let (q, m, k) = include_found path rules (ground arith) in (q, inr m, k)
  ]
  include_found path (_ ∷ rules) h = let (q, m, k) = include_found path rules h in (q, inr m, k)

  include_finds :
      (path pattern : Bytes) (rules : List Rule)
      → Among (rule_include pattern) rules
      → match_pattern glob pattern path ≡ true
      → (has_includes glob rules ≡ true) × (matches_include glob path rules ≡ true)
  unfolding matches_include has_includes
  include_finds path pattern [] m k = absurd m
  include_finds path pattern (rule_include p ∷ rules) (inl e) k = ground arith
  include_finds path pattern (rule_include p ∷ rules) (inr m) k =
      ground (arith, include_finds path pattern rules m k)
  include_finds path pattern (_ ∷ rules) (inl e) k = cc
  include_finds path pattern (_ ∷ rules) (inr m) k = include_finds path pattern rules m k

  include_there :
      (rules : List Rule)
      → has_includes glob rules ≡ true
      → (pattern : Bytes) × Among (rule_include pattern) rules
  unfolding has_includes
  include_there [] h = cc
  include_there (rule_include p ∷ rules) h = (p, inl refl)
  include_there (_ ∷ rules) h = let (p, m) = include_there rules h in (p, inr m)

  includes_test : List Rule → Bytes → Bool
  includes_test rules path = has_includes glob rules && not (matches_include glob path rules)

  Selected-iff :
      (path : Bytes) (rules : List Rule) → (includes_test rules path ≡ false) ↔ Selected path rules
  unfolding includes_test
  Selected-iff path rules = (
    (λ h. elim (Bool-cases (has_includes glob rules)) [
      | inl some_include ↦ inr (include_found path rules (ground arith))
      | inr none_there ↦ inl (no_includes rules none_there)
    ]),
    λ c. elim c [
      | inl none_there ↦ elim (Bool-cases (has_includes glob rules)) [
        | inl some_include ↦
            let (p, m) = include_there rules some_include in absurd (none_there p m)
        | inr e ↦ rw e
      ]
      | inr (p, m, k) ↦ ground (arith, include_finds path p rules m k)
    ],
  )

  -- A file passes a filter exactly when there is no include rule or one that matches its path, and
  -- every other rule allows it. Neither the order of the rules nor how often one stands there
  -- matters.
  pub match_iff :
      (now : ℕ) (rules : List Rule) (fi : FilterInfo)
      → (match glob now rules fi ≡ true)
        ↔ (Selected fi.path rules × ((r : Rule) → Among r rules → Allows now fi r))
  unfolding match
  match_iff now [] fi = ((λ _. (inl (λ p m. m), λ r m. absurd m)), λ _. refl)
  match_iff now (r ∷ rules) fi = (
    (λ h. (
      (Selected-iff fi.path (r ∷ rules)).0 (unfold includes_test in ground arith),
      (passes_all_iff now fi (r ∷ rules)).0 (ground arith),
    )),
    λ (c, allowed).
        let e = (Selected-iff fi.path (r ∷ rules)).1 c in
        let k = (passes_all_iff now fi (r ∷ rules)).1 allowed in
        unfold includes_test in ground (arith, e, k),
  )
