-- ===== src/File/Faults.antt =====
-- A path that leaves the root, and a copy that loses its file.
use mathlib.Core.List
use mathlib.Core.List.{reverse}
use omnistorage.Base.{
  ℕ, Bytes, bytes_eq, nat_eq, ◌≡◌, refl, sym, ap, ◌∙◌, ◌≢◌, Bool, true, false, List, [], ◌∷◌, ◌++◌,
  codes, ok, arith,
}
use omnistorage.Paths.Text.{slash, split, join, has_prefix, contains_text, Avoids, split_last}
use omnistorage.Paths.Clean.{dotdot, is_rooted, pop, push, resolve, segments, clean, path_join}
use omnistorage.Paths.Settled.{IsField, resolve-append}
use omnistorage.File.Confined.{split-append, clean_lem}
use omnistorage.File.Place.{validate_path, full_path, leaves_root}

-- An empty field is passed over.
resolve_skip :
    (rooted : Bool) (out vs ws : List Bytes)
    → resolve rooted out (vs ++ ([] ∷ ws)) ≡ resolve rooted out (vs ++ ws)
unfolding resolve push
resolve_skip rooted out vs ws =
    rw (resolve-append rooted out vs ([] ∷ ws), resolve-append rooted out vs ws) (ground arith)

split-slash : (s : Bytes) → split slash (slash ∷ s) ≡ [] ∷ split slash s
unfolding split
split-slash s = ground arith

-- `/../` and a name.
abbrev pub above : Bytes → Bytes
above x = slash ∷ (dotdot ++ (slash ∷ x))

no_climb_prefix : (s : Bytes) → Avoids slash s → has_prefix s (codes "../") ≡ false
unfolding has_prefix
no_climb_prefix [] a = refl
no_climb_prefix (c ∷ []) a = ground arith
no_climb_prefix (c ∷ d ∷ []) a = ground arith
no_climb_prefix (c ∷ d ∷ e ∷ s) (p, (q, (r, a))) = ground (arith, r)

no_climb_inside : (s : Bytes) → Avoids slash s → contains_text s (codes "../") ≡ false
unfolding contains_text
no_climb_inside [] a = unfold has_prefix in refl
no_climb_inside (c ∷ s) (p, a) = ground (arith, no_climb_prefix (c ∷ s) (p, a), no_climb_inside s a)

-- The fields of a path that goes up and down again.
split-above : (x : Bytes) → split slash (above x) ≡ [] ∷ (split slash dotdot ++ split slash x)
split-above x = split-slash (dotdot ++ (slash ∷ x)) ∙ ap (λ ws. [] ∷ ws) (split-append dotdot x)

split-dotdot : split slash dotdot ≡ dotdot ∷ []
unfolding split
split-dotdot = ground arith

segments-above : (x : Bytes) → IsField x → x ≢ dotdot → segments (above x) ≡ x ∷ []
segments-above x f up =
    let fields : split slash (above x) ≡ [] ∷ (dotdot ∷ (x ∷ [])) =
      rw (split-above x, split-dotdot, split_last slash x f.no_slash) refl in
    let kept : resolve true [] ([] ∷ (dotdot ∷ (x ∷ []))) ≡ x ∷ [] =
      unfold resolve in unfold push in unfold pop in ground (arith, f.not_empty, f.not_dot, up) in
    let rooted : is_rooted (above x) ≡ true = unfold is_rooted in ground arith in
    unfold segments in rw (rooted, fields, kept) refl

segments-past :
    (c : ℕ) (root x : Bytes)
    → segments ((c ∷ root) ++ (slash ∷ above x))
      ≡ segments (((c ∷ root) ++ (slash ∷ dotdot)) ++ (slash ∷ x))
segments-past c root x =
    let top = split slash (c ∷ root) in
    let one : split slash ((c ∷ root) ++ (slash ∷ above x))
        ≡ top ++ ([] ∷ (split slash dotdot ++ split slash x)) =
      split-append (c ∷ root) (above x) ∙ ap (λ ws. top ++ ws) (split-above x) in
    let two : split slash (((c ∷ root) ++ (slash ∷ dotdot)) ++ (slash ∷ x))
        ≡ top ++ (split slash dotdot ++ split slash x) =
      split-append ((c ∷ root) ++ (slash ∷ dotdot)) x
      ∙ ap (λ ws. ws ++ split slash x) (split-append (c ∷ root) dotdot)
      ∙ List.append_assoc top (split slash dotdot) (split slash x) in
    unfold segments in
    unfold is_rooted in
    rw (one, two)
      (ap reverse
        (resolve_skip (is_rooted (c ∷ root)) [] top (split slash dotdot ++ split slash x)))

-- A name behind `/../` is accepted, whatever the name is, but it stands on the disk where it would
-- with the parent of the root as the root.
pub root_escaped :
    (root x : Bytes)
    → root ≢ []
    → IsField x
    → x ≢ dotdot
    → (validate_path (above x) ≡ ok tt)
      × (full_path root (above x) ≡ full_path (root ++ (slash ∷ dotdot)) x)
unfolding full_path path_join is_rooted
root_escaped [] x given f up = absurd (given refl)
root_escaped (c ∷ root) x given f up =
    let rooted : is_rooted (above x) ≡ true = unfold is_rooted in ground arith in
    let cleaned : clean (above x) ≡ slash ∷ x =
      clean_lem (above x)
      ∙ rw (segments-above x f up, rooted) (unfold join in rw (List.append-nil x) refl) in
    let stays : leaves_root (slash ∷ x) ≡ false =
      unfold leaves_root in
      unfold has_prefix in unfold contains_text in ground (arith, no_climb_inside x f.no_slash) in
    (
      unfold validate_path in ground (arith, cleaned, stays),
      clean_lem ((c ∷ root) ++ (slash ∷ above x))
          ∙ rw (segments-past c root x)
              (sym (clean_lem (((c ∷ root) ++ (slash ∷ dotdot)) ++ (slash ∷ x)))),
    )
