-- ===== src/Base/Sort.antt =====
-- `sort.Strings`: byte strings in lexicographic order. The order in which equal texts come does
-- not show, so any sort is the same function.
use mathlib.Core.Path.{◌≡◌, refl}
use mathlib.Core.Logic.{◌⊎◌, inl, inr}
use mathlib.Core.Bool.{Bool, true, false, ◌||◌}
use mathlib.Core.List.{List, [], ◌∷◌}
use native.Mathlib.Omega.{arith}
use omnistorage.Base.Equality.{Bytes, bytes_eq, ◌==◌, if◌then◌else◌}
use omnistorage.Base.Tests.{ltb}

-- `s <= t`
unfoldable pub text_le : Bytes → Bytes → Bool
text_le [] t = true
text_le (c ∷ s) [] = false
text_le (c ∷ s) (d ∷ t) =
    let rest = text_le s t in if ltb c d then true else if ltb d c then false else rest

unfoldable pub insert_sorted : Bytes → List Bytes → List Bytes
insert_sorted s [] = s ∷ []
insert_sorted s (t ∷ ts) =
    let rest = insert_sorted s ts in if text_le s t then s ∷ t ∷ ts else t ∷ rest

unfoldable pub sort_strings : List Bytes → List Bytes
unfolding insert_sorted
sort_strings [] = []
sort_strings (s ∷ ss) = insert_sorted s (sort_strings ss)

unfoldable pub mem : Bytes → List Bytes → Bool
mem s [] = false
mem s (t ∷ ts) = s == t || mem s ts

-- No text is above one that stands behind it.
abbrev pub Below : Bytes → List Bytes → Type 0
Below s [] = Unit
Below s (t ∷ ts) = (text_le s t ≡ true) × Below s ts

abbrev pub IsSorted : List Bytes → Type 0
IsSorted [] = Unit
IsSorted (s ∷ ss) = Below s ss × IsSorted ss

text_le-total : (s t : Bytes) → (text_le s t ≡ true) ⊎ (text_le t s ≡ true)
unfolding text_le
text_le-total [] t = inl refl
text_le-total (c ∷ s) [] = inr refl
text_le-total (c ∷ s) (d ∷ t) = ground (arith, text_le-total s t)

text_le_trans : (s t u : Bytes) → text_le s t ≡ true → text_le t u ≡ true → text_le s u ≡ true
unfolding text_le
text_le_trans [] t u h k = refl
text_le_trans (c ∷ s) [] u h k = cc
text_le_trans (c ∷ s) (d ∷ t) [] h k = cc
text_le_trans (c ∷ s) (d ∷ t) (e ∷ u) h k = ground (arith, text_le_trans s t u)

Below-trans : (s t : Bytes) (ts : List Bytes) → text_le s t ≡ true → Below t ts → Below s ts
Below-trans s t [] h b = tt
Below-trans s t (u ∷ ts) h b = (text_le_trans s t u h b.0, Below-trans s t ts h b.1)

Below-insert_sorted :
    (s t : Bytes) (ts : List Bytes) → text_le s t ≡ true → Below s ts → Below s (insert_sorted t ts)
unfolding insert_sorted
Below-insert_sorted s t [] h b = (h, tt)
Below-insert_sorted s t (u ∷ ts) h b = ground (arith, Below-insert_sorted s t ts h)

insert_sorted-IsSorted : (s : Bytes) (ts : List Bytes) → IsSorted ts → IsSorted (insert_sorted s ts)
unfolding insert_sorted
insert_sorted-IsSorted s [] h = (tt, tt)
insert_sorted-IsSorted s (t ∷ ts) h = ground (
  arith,
  insert_sorted-IsSorted s ts,
  text_le-total s t,
  Below-trans s t ts,
  Below-insert_sorted t s ts,
)

pub sort_strings-IsSorted : (ss : List Bytes) → IsSorted (sort_strings ss)
unfolding sort_strings
sort_strings-IsSorted [] = tt
sort_strings-IsSorted (s ∷ ss) =
    insert_sorted-IsSorted s (sort_strings ss) (sort_strings-IsSorted ss)

mem-insert_sorted :
    (p s : Bytes) (ts : List Bytes) → mem p (insert_sorted s ts) ≡ (p == s || mem p ts)
unfolding mem insert_sorted
mem-insert_sorted p s [] = refl
mem-insert_sorted p s (t ∷ ts) = ground (arith, mem-insert_sorted p s ts)

pub mem-sort_strings : (p : Bytes) (ss : List Bytes) → mem p (sort_strings ss) ≡ mem p ss
unfolding mem sort_strings
mem-sort_strings p [] = refl
mem-sort_strings p (s ∷ ss) =
    ground (arith, mem-insert_sorted p s (sort_strings ss), mem-sort_strings p ss)
