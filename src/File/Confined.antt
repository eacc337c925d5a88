-- ===== src/File/Confined.antt =====
-- Where a path that was accepted may be on the disk.
use mathlib.Core.List
use mathlib.Core.List.{reverse}
use omnistorage.Base.{
  ℕ, Bytes, bytes_eq, nat_eq, ◌≡◌, refl, ap, ◌∙◌, ◌≢◌, inl, inr, Bool, true, false, List, [], ◌∷◌,
  ◌++◌, ok, arith, ◌==◌, All, All-reverse, if◌then◌else◌,
}
use omnistorage.Paths.Text.{slash, split, join, has_prefix, split-ne-nil}
use omnistorage.Paths.Clean.{dot, dotdot, is_rooted, pop, push, resolve, segments, clean, path_join}
use omnistorage.Paths.Settled.{stack, stack-Settled, resolve-append}
use omnistorage.Paths.Laws.{segments-IsField}
use omnistorage.Paths.Confined.{IsInside, inside, climbs_or_not}
use omnistorage.File.Place.{validate_path, full_path}

pub split-append : (a b : Bytes) → split slash (a ++ (slash ∷ b)) ≡ split slash a ++ split slash b
unfolding split
split-append [] b = ground arith
split-append (c ∷ a) b = ground (arith, split-append a b, split-ne-nil slash a)

-- Fields that climb stay, so if there is none in the end there was none on the way.
push_before :
    (out : List Bytes) (w : Bytes)
    → All (λ v. v ≢ dotdot) (push false out w)
    → All (λ v. v ≢ dotdot) out
unfolding push pop
push_before [] w a = tt
push_before (v ∷ out) w a = ground arith

resolve_before :
    (out ws : List Bytes) → All (λ v. v ≢ dotdot) (resolve false out ws) → All (λ v. v ≢ dotdot) out
unfolding resolve
resolve_before out [] a = a
resolve_before out (w ∷ ws) a = push_before out w (resolve_before (push false out w) ws a)

push_above :
    (rooted : Bool) (below out : List Bytes) (w : Bytes)
    → All (λ v. v ≢ dotdot) (push false out w)
    → push rooted (out ++ below) w ≡ push false out w ++ below
unfolding push pop
push_above rooted below [] w a = ground arith
push_above rooted below (v ∷ out) w a = ground arith

-- A path that does not climb goes the same way on top of any other.
resolve_above :
    (rooted : Bool) (below out ws : List Bytes)
    → All (λ v. v ≢ dotdot) (resolve false out ws)
    → resolve rooted (out ++ below) ws ≡ resolve false out ws ++ below
unfolding resolve
resolve_above rooted below out [] a = refl
resolve_above rooted below out (w ∷ ws) a =
    rw (push_above rooted below out w (resolve_before (push false out w) ws a))
      (resolve_above rooted below (push false out w) ws a)

-- The path that fields make, from the root or not.
abbrev pub placed : Bool → List Bytes → Bytes
placed rooted ws =
    if rooted then slash ∷ join slash ws else if join slash ws == [] then dot else join slash ws

pub clean_lem : (p : Bytes) → clean p ≡ placed (is_rooted p) (segments p)
unfolding clean
clean_lem p = ground arith

relative_climbs :
    (p : Bytes)
    → is_rooted p ≡ false
    → has_prefix (join slash (segments p)) dotdot ≡ true
    → validate_path p ≢ ok tt
unfolding validate_path clean has_prefix
relative_climbs p e h = ground arith

relative_stack :
    (p : Bytes) → is_rooted p ≡ false → validate_path p ≡ ok tt → All (λ w. w ≢ dotdot) (stack p)
unfolding segments stack
relative_stack p e h = elim (climbs_or_not (stack p) (stack-Settled p)) [
  | inl a ↦ a
  | inr climbs ↦ absurd (relative_climbs p e climbs h)
]

stack-under :
    (c : ℕ) (root p : Bytes)
    → is_rooted p ≡ false
    → All (λ w. w ≢ dotdot) (stack p)
    → stack ((c ∷ root) ++ (slash ∷ p)) ≡ stack p ++ stack (c ∷ root)
stack-under c root p e a =
    let rooted = is_rooted (c ∷ root) in
    let relative : stack p ≡ resolve false [] (split slash p) = unfold stack in ground (arith, e) in
    let whole : stack ((c ∷ root) ++ (slash ∷ p))
        ≡ resolve rooted [] (split slash (c ∷ root) ++ split slash p) =
      unfold stack in unfold is_rooted in rw (← split-append (c ∷ root) p) refl in
    let below : resolve rooted [] (split slash (c ∷ root)) ≡ stack (c ∷ root) =
      unfold stack in refl in
    rw (whole, resolve-append rooted [] (split slash (c ∷ root)) (split slash p), below, relative)
      (resolve_above rooted (stack (c ∷ root)) [] (split slash p) (rw (← relative) a))

-- A path that is accepted and does not begin with a slash is on the disk below the root: behind the
-- fields of the root are those of the path, none of which is empty, `.` or `..`.
pub full_path_confined :
    (root p : Bytes)
    → root ≢ []
    → is_rooted p ≡ false
    → validate_path p ≡ ok tt
    → (full_path root p ≡ placed (is_rooted root) (segments root ++ segments p))
      × All IsInside (segments p)
unfolding full_path path_join
full_path_confined [] p given e h = absurd (given refl)
full_path_confined (c ∷ root) p given e h =
    let a = relative_stack p e h in
    let fields : segments ((c ∷ root) ++ (slash ∷ p)) ≡ segments (c ∷ root) ++ segments p =
      unfold segments in
      unfold stack in
      ap reverse (stack-under c root p e a) ∙ List.reverse-append (stack p) (stack (c ∷ root)) in
    let same : is_rooted ((c ∷ root) ++ (slash ∷ p)) ≡ is_rooted (c ∷ root) =
      unfold is_rooted in refl in
    let no_dotdot : All (λ w. w ≢ dotdot) (segments p) =
      unfold segments in unfold stack in All-reverse _ (stack p) a in
    (
      clean_lem ((c ∷ root) ++ (slash ∷ p)) ∙ rw (fields, same) refl,
      inside (segments p) (segments-IsField p) no_dotdot,
    )
