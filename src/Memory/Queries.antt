-- ===== src/Memory/Queries.antt =====
-- `List` against the map it lists, and `Stat` against what a reader delivers.
use omnistorage.Base.{
  ℕ, suc, Bytes, bytes_eq, ◌≡◌, refl, Bool, true, false, not, ◌&&◌, List, [], ◌∷◌, ◌++◌, codes,
}
use omnistorage.Base.{
  Option, none, some, arith, Result, ok, err, panic, Context, length, Option-cases, Result-cases,
  inl, inr, nat_eq,
}
use omnistorage.Base.Int.{pos}
use omnistorage.Base.Dict
use omnistorage.Base.Dict.{Dict, NodupKeys}
use omnistorage.Base.Sort.{sort_strings, mem, IsSorted, sort_strings-IsSorted, mem-sort_strings}
use omnistorage.Paths.Text.{has_prefix}
use omnistorage.Paths.Normal.{normalize_path}
use omnistorage.Memory.State.{Object, Backend, entries, object_at}
use omnistorage.Memory.Query.{new_reader, stat, ObjectInfo, apply_offset, apply_limit}
use omnistorage.Memory.Listing.{matches_prefix, list_loop, list, listed}
use omnistorage.Memory.Invariant.{IsValid}

has_prefix-longer :
    (p prefix more : Bytes) → has_prefix p (prefix ++ more) ≡ true → has_prefix p prefix ≡ true
unfolding has_prefix
has_prefix-longer p [] more h = refl
has_prefix-longer [] (c ∷ prefix) more h = cc
has_prefix-longer (d ∷ p) (c ∷ prefix) more h = ground (arith, has_prefix-longer p prefix more)

-- The three tests under "Match prefix" come to one.
pub matches_prefix-eq-has_prefix :
    (prefix p : Bytes) → matches_prefix prefix p ≡ has_prefix p prefix
unfolding matches_prefix
matches_prefix-eq-has_prefix [] p = unfold has_prefix bytes_eq in refl
matches_prefix-eq-has_prefix (c ∷ prefix) p =
    ground (arith, has_prefix-longer p (c ∷ prefix) (codes "/"))

-- Whether a map entry is a file under the prefix.
abbrev pub is_listed : Bytes → Bytes → Option Object → Bool
is_listed prefix p none = false
is_listed prefix p (some obj) = not obj.is_dir && has_prefix p prefix

-- A loop that succeeds has seen a live context and a rest that succeeds.
list_loop-cons :
    (ctx : ℕ → Context) (n : ℕ) (prefix : Bytes) (e : Bytes × Object) (d : Dict Bytes Object)
    {paths : List Bytes}
    → list_loop ctx n prefix (e ∷ d) ≡ ok paths
    → (rest : List Bytes) × (list_loop ctx (suc n) prefix d ≡ ok rest)
      × (paths ≡ listed prefix e rest)
unfolding list_loop
list_loop-cons ctx n prefix e d {paths} h = go (ctx n) (list_loop ctx (suc n) prefix d) h
  where
    go :
        (c : Context) (r : Result (List Bytes))
        → (elim c [
          | some done ↦ err done
          | none ↦ elim r [ ok paths ↦ ok (listed prefix e paths) | err f ↦ err f | panic ↦ panic ]
        ])
          ≡ ok paths
        → (rest : List Bytes) × (r ≡ ok rest) × (paths ≡ listed prefix e rest)
    go none (ok rest) k = (rest, refl, cc)
    go none (err f) k = cc
    go none panic k = cc
    go (some done) r k = cc

mem-list_loop :
    (ctx : ℕ → Context) (n : ℕ) (prefix p : Bytes) (d : Dict Bytes Object) {paths : List Bytes}
    → NodupKeys d
    → list_loop ctx n prefix d ≡ ok paths
    → mem p paths ≡ is_listed prefix p (Dict.lookup p d)
unfolding mem Dict.lookup
mem-list_loop ctx n prefix p [] u h = unfold list_loop in ground arith
mem-list_loop ctx n prefix p (e ∷ d) {paths} u h =
    let (rest, ok_rest, eq) = list_loop-cons ctx n prefix e d h in
    rw eq (
      ground (
        arith,
        matches_prefix-eq-has_prefix prefix e.0,
        mem-list_loop ctx (suc n) prefix p d u.1 ok_rest,
      ))

list-eq-sort :
    (ctx : ℕ → Context) (prefix : Bytes) (b : Backend) {paths : List Bytes}
    → (list ctx prefix b).0 ≡ ok paths
    → (found : List Bytes) × (list_loop ctx 1 (normalize_path prefix) (entries b) ≡ ok found)
      × (paths ≡ sort_strings found)
unfolding list
list-eq-sort ctx prefix b {paths} h =
    elim (Result-cases (list_loop ctx 1 (normalize_path prefix) (entries b))) [
      | inl (found, e) ↦ (found, e, ground arith)
      | inr (inl (f, e)) ↦ absurd (ground arith)
      | inr (inr e) ↦ absurd (ground arith)
    ]

-- A listing that succeeds is sorted, and holds exactly the files of the map whose paths begin with
-- the normalised prefix.
pub list_exact :
    (ctx : ℕ → Context) (prefix : Bytes) (b : Backend) {paths : List Bytes}
    → IsValid b
    → (list ctx prefix b).0 ≡ ok paths
    → IsSorted paths
      × ((p : Bytes) → mem p paths ≡ is_listed (normalize_path prefix) p (object_at p b))
list_exact ctx prefix b {paths} v h =
    let (found, listed_all, sorted) = list-eq-sort ctx prefix b h in
    (
      rw sorted (sort_strings-IsSorted found),
      λ p.
          rw (sorted, mem-sort_strings p found)
            (mem-list_loop ctx 1 (normalize_path prefix) p (entries b) v.nodup listed_all),
    )

list_loop_total :
    (ctx : ℕ → Context) (n : ℕ) (prefix : Bytes) (d : Dict Bytes Object)
    → ((k : ℕ) → ctx k ≡ none)
    → (paths : List Bytes) × (list_loop ctx n prefix d ≡ ok paths)
unfolding list_loop
list_loop_total ctx n prefix [] h = ([], refl)
list_loop_total ctx n prefix (e ∷ d) h =
    let (rest, eq) = list_loop_total ctx (suc n) prefix d h in
    (listed prefix e rest, rw (h n, eq, list_loop))

-- A file that `Stat` reports has as many bytes for a reader as its size says.
pub stat-new_reader :
    (ctx : Context) (p : Bytes) (b : Backend) {info : ObjectInfo}
    → (stat ctx p b).0 ≡ ok info
    → info.is_dir ≡ false
    → (bytes : Bytes) × ((new_reader ctx p
          (record { buffer_size = pos 0; offset = pos 0; limit = pos 0 })
          b).0
        ≡ ok bytes)
      × (length bytes ≡ info.size)
unfolding stat new_reader apply_offset apply_limit
stat-new_reader ctx p b h f = elim (Option-cases (object_at (normalize_path p) b)) [
  | inl e ↦ absurd (ground arith)
  | inr (obj, e) ↦ (obj.data_bytes, ground arith, ground arith)
]
