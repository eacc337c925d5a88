-- ===== src/Paths/Laws.antt =====
-- Normalised paths: they stay as they are when they are normalised again, and those of a
-- validated path stay inside the backend's root.
use mathlib.Core.List
use mathlib.Core.List.{reverse}
use omnistorage.Base.{Bytes, ◌≡◌, refl, ◌≢◌, false, List, [], ◌∷◌}
use omnistorage.Base.{arith, bytes_eq, nat_eq, All, All-map, All-reverse, codes}
use omnistorage.Paths.Text.{slash, trim_prefix, split, join, Avoids, split-join}
use omnistorage.Paths.Clean.{dot, is_rooted, segments}
use omnistorage.Paths.Settled.{IsField, Settled, stack, stack-Settled}

Settled-IsField : (out : List Bytes) → Settled out → All IsField out
Settled-IsField [] s = tt
Settled-IsField (w ∷ out) s = (s.0, Settled-IsField out s.2)

pub segments-IsField : (p : Bytes) → All IsField (segments p)
unfolding segments stack
segments-IsField p = All-reverse _ (stack p) (Settled-IsField (stack p) (stack-Settled p))

field-Avoids : (ws : List Bytes) → All IsField ws → All (Avoids slash) ws
field-Avoids ws = All-map _ (λ w f. f.no_slash) ws

pub split-join_fields :
    (w : Bytes) (ws : List Bytes)
    → All IsField (w ∷ ws)
    → split slash (join slash (w ∷ ws)) ≡ w ∷ ws
split-join_fields w ws f = split-join slash w ws (field-Avoids (w ∷ ws) f)

pub join-ne-dot : (ws : List Bytes) → All IsField ws → join slash ws ≢ dot
unfolding join
join-ne-dot [] f e = cc
join-ne-dot ((c ∷ w) ∷ []) f e = absurd (f.0.not_dot (rw List.append-nil at e))
join-ne-dot ([] ∷ ws) f e = f.0.not_empty refl
join-ne-dot ((c ∷ []) ∷ v ∷ ws) f e = cc
join-ne-dot ((c ∷ d ∷ w) ∷ v ∷ ws) f e = cc

-- A relative path of fields does not begin with a slash.
pub trim-join :
    (ws : List Bytes) → All IsField ws → trim_prefix (join slash ws) (codes "/") ≡ join slash ws
unfolding join trim_prefix
trim-join [] f = refl
trim-join ([] ∷ ws) f = absurd (f.0.not_empty refl)
trim-join ((c ∷ w) ∷ ws) f = ground (arith, f.0.no_slash)

pub is_rooted-join : (ws : List Bytes) → All IsField ws → is_rooted (join slash ws) ≡ false
unfolding join is_rooted
is_rooted-join [] f = refl
is_rooted-join ([] ∷ ws) f = absurd (f.0.not_empty refl)
is_rooted-join ((c ∷ w) ∷ ws) f = ground (arith, f.0.no_slash)

pub join-eq-nil : (ws : List Bytes) → All IsField ws → join slash ws ≡ [] → ws ≡ []
unfolding join
join-eq-nil [] f e = refl
join-eq-nil ([] ∷ ws) f e = absurd (f.0.not_empty refl)
join-eq-nil ((c ∷ w) ∷ ws) f e = cc
