-- ===== src/HashSet.antt =====
-- The type HashSet of hash.go: the hashes of an object by their type; the map may be nil.
use omnistorage.Base.{
  Bytes, bytes_eq, ◌≡◌, refl, ◌↔◌, Bool, true, false, [], ◌∷◌, Option, none, some, arith, ◌==◌,
  Option-cases, Bool-cases, inl, inr,
}
use omnistorage.Base.Dict
use omnistorage.Base.Dict.{Dict, NodupKeys}
use omnistorage.Features.{HashType, hash_type_eq}

abbrev pub HashSet : Type 0
HashSet = Option (Dict HashType Bytes)

-- `Get`
unfoldable pub get : HashSet → HashType → Bytes
get none t = []
get (some hs) t = elim (Dict.lookup t hs) [ none ↦ [] | some v ↦ v ]

-- `Set`, which does nothing to a nil map.
unfoldable pub set : HashSet → HashType → Bytes → HashSet
set none t value = none
set (some hs) t value = some (Dict.insert t value hs)

-- `Has`
unfoldable pub has : HashSet → HashType → Bool
has none t = false
has (some hs) t = Dict.contains t hs

-- The loop of `Equal`; `found` is `foundCommon`.
unfoldable pub equal_loop : Bool → Dict HashType Bytes → Dict HashType Bytes → Bool
equal_loop found [] other = found
equal_loop found ((t, v) ∷ hs) other = elim (Dict.lookup t other) [
  | none ↦ equal_loop found hs other
  | some w ↦ elim (v == w) [ true ↦ equal_loop true hs other | false ↦ false ]
]

unfoldable pub equal : HashSet → HashSet → Bool
unfolding equal_loop
equal none other = false
equal (some hs) none = false
equal (some hs) (some other) = equal_loop false hs other

-- Where both have a hash of the type, it is the same.
abbrev pub Agree : Dict HashType Bytes → Dict HashType Bytes → Type 0
Agree hs other =
    (t : HashType) (v w : Bytes) → Dict.lookup t hs ≡ some v → Dict.lookup t other ≡ some w → v ≡ w

abbrev pub Common : Dict HashType Bytes → Dict HashType Bytes → Type 0
Common hs other =
    (t : HashType) × (v : Bytes) × (w : Bytes) × (Dict.lookup t hs ≡ some v)
    × (Dict.lookup t other ≡ some w)

loop_true :
    (found : Bool) (hs other : Dict HashType Bytes)
    → NodupKeys hs
    → equal_loop found hs other ≡ true
    → Agree hs other
unfolding equal_loop Dict.lookup
loop_true found [] other nodup e t v w k l = cc
loop_true found ((s, x) ∷ hs) other (fresh, nodup) e t v w k l = elim (Bool-cases (t == s)) [
  | inl here ↦ ground arith
  | inr there ↦
      let m : Dict.lookup t hs ≡ some v = ground arith in
      elim (Option-cases (Dict.lookup s other)) [
        | inl n ↦ loop_true found hs other nodup (ground arith) t v w m l
        | inr (y, n) ↦ loop_true true hs other nodup (ground arith) t v w m l
      ]
]

loop-Common :
    (hs other : Dict HashType Bytes)
    → NodupKeys hs
    → equal_loop false hs other ≡ true
    → Common hs other
unfolding equal_loop Dict.lookup
loop-Common [] other nodup e = absurd cc
loop-Common ((s, x) ∷ hs) other (fresh, nodup) e = elim (Option-cases (Dict.lookup s other)) [
  | inr (y, k) ↦ (s, x, y, ground arith, k)
  | inl k ↦
      let (t, v, w, l, m) = loop-Common hs other nodup (ground arith) in
      (t, v, w, ground (arith, fresh, l), m)
]

loop_back :
    (found : Bool) (hs other : Dict HashType Bytes)
    → NodupKeys hs
    → Agree hs other
    → (found ≡ true → equal_loop found hs other ≡ true)
      × ((t : HashType) (v w : Bytes)
          → Dict.lookup t hs ≡ some v
          → Dict.lookup t other ≡ some w
          → equal_loop found hs other ≡ true)
unfolding equal_loop Dict.lookup
loop_back found [] other nodup agree = ((λ h. h), λ t v w k l. cc)
loop_back found ((s, x) ∷ hs) other (fresh, nodup) agree =
    let rest : Agree hs other = λ t v w k l. agree t v w (ground (arith, fresh)) l in
    elim (Option-cases (Dict.lookup s other)) [
      | inl n ↦
          let (always, common) = loop_back found hs other nodup rest in
          (λ h. ground (arith, always h), λ t v w k l. ground (arith, common t v w))
      | inr (y, n) ↦
          let (always, _) = loop_back true hs other nodup rest in
          let alike : x ≡ y = agree s x y (ground arith) n in
          ((λ h. ground (arith, always refl)), λ t v w k l. ground (arith, always refl))
    ]

-- Two hash sets are equal exactly when there is a type of which both have a hash, and for each such
-- type the two hashes are the same; a nil map is equal to none.
pub equal_iff :
    (hs other : Dict HashType Bytes)
    → NodupKeys hs
    → (equal (some hs) (some other) ≡ true ↔ (Common hs other × Agree hs other))
      × (equal none (some other) ≡ false)
      × (equal (some hs) none ≡ false)
unfolding equal
equal_iff hs other nodup = (
  (
    (λ e. (loop-Common hs other nodup e, loop_true false hs other nodup e)),
    λ (both, agree).
        let (t, v, w, k, l) = both in (loop_back false hs other nodup agree).1 t v w k l,
  ),
  refl,
  refl,
)
