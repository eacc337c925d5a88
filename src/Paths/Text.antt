-- ===== src/Paths/Text.antt =====
-- `strings.HasPrefix`, `TrimPrefix`, `Contains`, `Split` and `Join`, over bytes.
use mathlib.Core.List
use omnistorage.Base.{ℕ, Bytes, ◌≡◌, refl, ◌≢◌, Bool, true, false, ◌&&◌, ◌||◌, List, [], ◌∷◌, ◌++◌}
use omnistorage.Base.{arith, ==-refl, ◌==◌, nat_eq, if◌then◌else◌, All}

abbrev pub slash : ℕ
slash = b'/'

-- `strings.HasPrefix(s, prefix)`
unfoldable pub has_prefix : Bytes → Bytes → Bool
has_prefix s [] = true
has_prefix [] (c ∷ prefix) = false
has_prefix (d ∷ s) (c ∷ prefix) = d == c && has_prefix s prefix

-- `strings.TrimPrefix(s, prefix)`, and the whole text if the prefix is not there.
rest_after : Bytes → Bytes → Bytes → Bytes
rest_after whole s [] = s
rest_after whole [] (c ∷ prefix) = whole
rest_after whole (d ∷ s) (c ∷ prefix) =
    let rest = rest_after whole s prefix in if d == c then rest else whole

unfoldable pub trim_prefix : Bytes → Bytes → Bytes
unfolding rest_after
trim_prefix s prefix = rest_after s s prefix

rest_after-append : (whole prefix rest : Bytes) → rest_after whole (prefix ++ rest) prefix ≡ rest
unfolding rest_after
rest_after-append whole [] rest = refl
rest_after-append whole (c ∷ prefix) rest =
    ground (arith, rest_after-append whole prefix rest, ==-refl c)

-- A prefix that is there is taken off.
pub trim_prefix-append : (prefix rest : Bytes) → trim_prefix (prefix ++ rest) prefix ≡ rest
unfolding trim_prefix
trim_prefix-append prefix rest = rest_after-append (prefix ++ rest) prefix rest

-- A byte that is not there is not taken off.
pub trim_prefix_other : (c d : ℕ) (s : Bytes) → d ≢ c → trim_prefix (d ∷ s) (c ∷ []) ≡ d ∷ s
unfolding trim_prefix rest_after
trim_prefix_other c d s h = ground (arith, h)

-- `strings.Contains(s, part)`
unfoldable pub contains_text : Bytes → Bytes → Bool
unfolding has_prefix
contains_text [] part = has_prefix [] part
contains_text (c ∷ s) part = has_prefix (c ∷ s) part || contains_text s part

module _ (sep : ℕ) where
  -- A byte in front of the first field.
  abbrev cons_first : ℕ → List Bytes → List Bytes
  cons_first c [] = (c ∷ []) ∷ []
  cons_first c (w ∷ ws) = (c ∷ w) ∷ ws

  -- `strings.Split(s, sep)`: the empty text has one field, which is empty.
  unfoldable pub split : Bytes → List Bytes
  split [] = [] ∷ []
  split (c ∷ s) = let fields = split s in if c == sep then [] ∷ fields else cons_first c fields

  abbrev pub join_after : List Bytes → Bytes
  join_after [] = []
  join_after (w ∷ ws) = sep ∷ (w ++ join_after ws)

  -- `strings.Join(fields, sep)`
  unfoldable pub join : List Bytes → Bytes
  join [] = []
  join (w ∷ ws) = w ++ join_after ws

  abbrev pub Avoids : Bytes → Type 0
  Avoids = All (λ c. c ≢ sep)

  pub split-ne-nil : (s : Bytes) → split s ≢ []
  unfolding split
  split-ne-nil [] = λ e. cc
  split-ne-nil (c ∷ s) = λ e. ground (arith, split-ne-nil s)

  pub split_field : (w s : Bytes) → Avoids w → split (w ++ sep ∷ s) ≡ w ∷ split s
  unfolding split
  split_field [] s a = ground arith
  split_field (c ∷ w) s (ne, a) = ground (arith, split_field w s a)

  pub split_last : (w : Bytes) → Avoids w → split w ≡ w ∷ []
  unfolding split
  split_last [] a = refl
  split_last (c ∷ w) (ne, a) = ground (arith, split_last w a)

  split-join_after :
      (w : Bytes) (ws : List Bytes) → Avoids w → All Avoids ws → split (w ++ join_after ws) ≡ w ∷ ws
  split-join_after w [] a as' = rw List.append-nil (split_last w a)
  split-join_after w (v ∷ vs) a (b, bs) =
      rw (split_field w (v ++ join_after vs) a, split-join_after v vs b bs)

  -- Fields without the separator survive a join.
  pub split-join :
      (w : Bytes) (ws : List Bytes) → All Avoids (w ∷ ws) → split (join (w ∷ ws)) ≡ w ∷ ws
  unfolding join
  split-join w ws (a, as') = split-join_after w ws a as'

  cons_first-Avoids :
      (c : ℕ) (ws : List Bytes) → c ≢ sep → All Avoids ws → All Avoids (cons_first c ws)
  cons_first-Avoids c [] ne a = ((ne, tt), tt)
  cons_first-Avoids c (w ∷ ws) ne (a, as') = ((ne, a), as')

  -- No field holds the separator.
  pub split-Avoids : (s : Bytes) → All Avoids (split s)
  unfolding split
  split-Avoids [] = (tt, tt)
  split-Avoids (c ∷ s) = ground (arith, split-Avoids s, cons_first-Avoids c (split s))
