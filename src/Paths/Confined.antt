-- ===== src/Paths/Confined.antt =====
-- Two promises of the path functions: a normalised path is a normal form, and a path that
-- validation accepts does not climb out of the backend's root.
use mathlib.Core.List
use mathlib.Core.List.{reverse}
use omnistorage.Base.{
  ℕ, zero, suc, take, All-take, Bytes, ◌≡◌, refl, ap, ◌∙◌, ◌≢◌, ◌⊎◌, inl, inr, true, false, List,
  [], ◌∷◌, ◌++◌,
}
use omnistorage.Base.{arith, ◌==◌, bytes_eq, nat_eq, All, All-reverse, Bool-cases, ok, codes}
use omnistorage.Paths.Text.{slash, has_prefix, trim_prefix, split, join, join_after}
use omnistorage.Paths.Clean.{dot, dotdot, is_rooted, pop, push, resolve, segments, clean}
use omnistorage.Paths.Settled.{IsField, Settled, stack, stack-Settled, resolve-reverse}
use omnistorage.Paths.Normal.{validate_path, normalize_path}
use omnistorage.Paths.Laws.{
  segments-IsField, split-join_fields, join-ne-dot, trim-join, is_rooted-join,
}

trim_slash : (s : Bytes) → trim_prefix (slash ∷ s) (codes "/") ≡ s
unfolding trim_prefix nat_eq
trim_slash s = refl

segments-nil : segments [] ≡ []
unfolding segments resolve push split is_rooted bytes_eq
segments-nil = refl

trim_dot : trim_prefix dot (codes "/") ≡ dot
unfolding trim_prefix nat_eq
trim_dot = refl

join_nil : join slash [] ≡ []
unfolding join
join_nil = refl

-- Whether the path is rooted or not, its normal form is the list of its fields.
pub normalize-eq-join : (p : Bytes) → normalize_path p ≡ join slash (segments p)
unfolding normalize_path clean join
normalize-eq-join [] = ground (arith, segments-nil)
normalize-eq-join (c ∷ p) =
    let f = segments-IsField (c ∷ p) in
    ground (
      arith,
      trim_slash (join slash (segments (c ∷ p))),
      trim-join (segments (c ∷ p)) f,
      join-ne-dot (segments (c ∷ p)) f,
      trim_dot,
    )

-- Fields that are joined come back, and pass through the stack again.
fields_again :
    (ws : List Bytes) → All IsField ws → segments (join slash ws) ≡ reverse (resolve false [] ws)
fields_again [] f = unfold resolve in rw join_nil segments-nil
fields_again (w ∷ ws) f =
    unfold segments in rw (split-join_fields w ws f, is_rooted-join (w ∷ ws) f)

pub segments-join : (p : Bytes) → segments (join slash (segments p)) ≡ segments p
unfolding segments stack
segments-join p =
    fields_again (segments p) (segments-IsField p)
    ∙ ap reverse (resolve-reverse (stack p) (stack-Settled p))

-- A normalised path is its own normal form.
pub normalize_idem : (p : Bytes) → normalize_path (normalize_path p) ≡ normalize_path p
normalize_idem p = rw (normalize-eq-join, normalize-eq-join, segments-join)

has_prefix-append :
    (s t prefix : Bytes) → has_prefix s prefix ≡ true → has_prefix (s ++ t) prefix ≡ true
unfolding has_prefix
has_prefix-append s t [] h = ground arith
has_prefix-append [] t (c ∷ prefix) h = cc
has_prefix-append (d ∷ s) t (c ∷ prefix) h = ground (arith, has_prefix-append s t prefix)

join_after-append :
    (vs ws : List Bytes) → join_after slash (vs ++ ws) ≡ join_after slash vs ++ join_after slash ws
join_after-append [] ws = refl
join_after-append (v ∷ vs) ws = rw (join_after-append vs ws, List.append_assoc)

-- A path that begins with `..` still does when a field is added behind.
climbs_longer :
    (vs : List Bytes) (w : Bytes)
    → has_prefix (join slash vs) dotdot ≡ true
    → has_prefix (join slash (vs ++ w ∷ [])) dotdot ≡ true
unfolding join
climbs_longer [] w h = unfold has_prefix in cc
climbs_longer (v ∷ vs) w h =
    rw (join_after-append vs (w ∷ []), ← List.append_assoc) (has_prefix-append _ _ dotdot h)

climbs_first : has_prefix (join slash (dotdot ∷ [])) dotdot ≡ true
unfolding has_prefix join nat_eq
climbs_first = refl

climbs_alone :
    (w : Bytes) (out : List Bytes)
    → w ≡ dotdot
    → All (λ v. v ≡ dotdot) out
    → All (λ v. v ≢ dotdot) out
    → has_prefix (join slash (reverse (w ∷ out))) dotdot ≡ true
climbs_alone w [] e same other = rw e climbs_first
climbs_alone w (v ∷ out) e (same, _) (other, _) = absurd (other same)

-- A settled path has no `..`, or begins with one.
pub climbs_or_not :
    (out : List Bytes)
    → Settled out
    → All (λ w. w ≢ dotdot) out ⊎ (has_prefix (join slash (reverse out)) dotdot ≡ true)
climbs_or_not [] s = inl tt
climbs_or_not (w ∷ out) s = elim (climbs_or_not out s.2) [
  | inr climbs ↦ inr (rw List.reverse-cons (climbs_longer (reverse out) w climbs))
  | inl none_below ↦ elim (Bool-cases (w == dotdot)) [
    | inr other ↦ inl ((λ e. ground arith), none_below)
    | inl up ↦ let e : w ≡ dotdot = ground arith in inr (climbs_alone w out e (s.1 e) none_below)
  ]
]

-- Below the root of a rooted path `..` takes a field off or is dropped, and never stays.
push_rooted :
    (out : List Bytes) (w : Bytes)
    → All (λ v. v ≢ dotdot) out
    → All (λ v. v ≢ dotdot) (push true out w)
unfolding push pop
push_rooted [] w a = ground arith
push_rooted (v ∷ out) w a = ground arith

resolve_rooted :
    (out ws : List Bytes) → All (λ v. v ≢ dotdot) out → All (λ v. v ≢ dotdot) (resolve true out ws)
unfolding resolve
resolve_rooted out [] a = a
resolve_rooted out (w ∷ ws) a = resolve_rooted (push true out w) ws (push_rooted out w a)

escape_refused :
    (p : Bytes)
    → is_rooted p ≡ false
    → has_prefix (join slash (segments p)) dotdot ≡ true
    → validate_path p ≢ ok tt
unfolding validate_path clean has_prefix
escape_refused p e h = ground arith

-- A validated path has no `..` among its fields.
pub segments_confined : (p : Bytes) → validate_path p ≡ ok tt → All (λ w. w ≢ dotdot) (segments p)
unfolding segments stack
segments_confined p h = All-reverse _ (stack p) (elim (Bool-cases (is_rooted p)) [
  | inl rooted ↦ rw rooted (resolve_rooted [] (split slash p) tt)
  | inr relative ↦ elim (climbs_or_not (stack p) (stack-Settled p)) [
    | inl a ↦ a
    | inr climbs ↦ absurd (escape_refused p relative climbs h)
  ]
])

-- The field of a path that stays inside: no `.` and no `..`.
abbrev pub IsInside : Bytes → Type 0
IsInside w = (w ≢ []) × (w ≢ dot) × (w ≢ dotdot)

pub inside : (ws : List Bytes) → All IsField ws → All (λ w. w ≢ dotdot) ws → All IsInside ws
inside [] f a = tt
inside (w ∷ ws) (f, fs) (a, as') = ((f.not_empty, f.not_dot, a), inside ws fs as')

-- A path that `validatePath` accepts is normalised to the empty path or to fields between
-- slashes none of which is empty, `.` or `..`.
pub normalize_confined :
    (p : Bytes)
    → validate_path p ≡ ok tt
    → (normalize_path p ≡ []) ⊎ All IsInside (split slash (normalize_path p))
normalize_confined p h = rw normalize-eq-join (
    go (segments p) (inside (segments p) (segments-IsField p) (segments_confined p h))
      (segments-IsField p))
  where
    go :
        (ws : List Bytes)
        → All IsInside ws
        → All IsField ws
        → (join slash ws ≡ []) ⊎ All IsInside (split slash (join slash ws))
    go [] a f = inl join_nil
    go (w ∷ ws) a f = inr (rw (split-join_fields w ws f) a)

resolve_inside :
    (out ws : List Bytes)
    → All IsField ws
    → All (λ w. w ≢ dotdot) ws
    → resolve false out ws ≡ List.reverse_aux ws out
unfolding resolve push
resolve_inside out [] f a = refl
resolve_inside out (w ∷ ws) f a =
    ground (arith, f.0.not_empty, f.0.not_dot, resolve_inside (w ∷ out) ws f.1 a.1)

-- Fields that stay inside, joined, are a normalised path.
pub normalize-join :
    (ws : List Bytes)
    → All IsField ws
    → All (λ w. w ≢ dotdot) ws
    → normalize_path (join slash ws) ≡ join slash ws
normalize-join ws f a =
    rw (normalize-eq-join, fields_again ws f, resolve_inside [] ws f a, List.reverse-reverse)

normalize_nil : normalize_path [] ≡ []
unfolding normalize_path bytes_eq
normalize_nil = refl

split_nil : split slash [] ≡ [] ∷ []
unfolding split
split_nil = refl

join_empty_field : join slash ([] ∷ []) ≡ []
unfolding join
join_empty_field = refl

-- The ancestors of a validated path, the path itself among them, are normalised paths too.
pub ancestors_normal :
    (p : Bytes)
    → validate_path p ≡ ok tt
    → (n : ℕ)
    → let ancestor = join slash (take n (split slash (normalize_path p))) in
      normalize_path ancestor ≡ ancestor
ancestors_normal p h n =
    rw (normalize-eq-join p) (go (segments p) (segments-IsField p) (segments_confined p h) n)
  where
    go :
        (ws : List Bytes)
        → All IsField ws
        → All (λ w. w ≢ dotdot) ws
        → (n : ℕ)
        → normalize_path (join slash (take n (split slash (join slash ws))))
          ≡ join slash (take n (split slash (join slash ws)))
    go [] f a zero = rw (join_nil, normalize_nil)
    go [] f a (suc zero) = rw (join_nil, split_nil, join_empty_field, normalize_nil)
    go [] f a (suc (suc n)) = rw (join_nil, split_nil, join_empty_field, normalize_nil)
    go (w ∷ ws) f a n =
        rw (split-join_fields w ws f)
          (normalize-join (take n (w ∷ ws)) (All-take _ n (w ∷ ws) f) (All-take _ n (w ∷ ws) a))
