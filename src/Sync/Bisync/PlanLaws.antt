-- ===== src/Sync/Bisync/PlanLaws.antt =====
-- Each path of either side has one action or is in sync.
use omnistorage.Base.{
  ℕ, suc, ◌+◌, Bytes, bytes_eq, ◌≡◌, refl, Bool, true, false, ◌||◌, List, [], ◌∷◌, ◌++◌, Option,
  none, some, if◌then◌else◌, ◌==◌, arith, length, length-append,
}
use omnistorage.Base.Dict
use omnistorage.Base.Dict.{Dict, NodupKeys}
use omnistorage.Sync.Options.{Options, FileInfo, needs_update}
use omnistorage.Sync.Check.{plain_map}
use omnistorage.Sync.Bisync.Plan.{
  BisyncAction, copy_to2, copy_to1, in_conflict, Scan, is_processed, categorize, first_loop,
  second_loop, plan_bisync,
}

abbrev pub path_of : BisyncAction → Bytes
path_of (copy_to2 f) = f.path
path_of (copy_to1 g) = g.path
path_of (in_conflict f g) = f.path

-- The actions for a path.
unfoldable pub actions_at : Bytes → List BisyncAction → List BisyncAction
actions_at p [] = []
actions_at p (a ∷ actions) =
    let rest = actions_at p actions in if p == path_of a then a ∷ rest else rest

actions_at-append :
    (p : Bytes) (xs ys : List BisyncAction)
    → actions_at p (xs ++ ys) ≡ actions_at p xs ++ actions_at p ys
unfolding actions_at
actions_at-append p [] ys = refl
actions_at-append p (a ∷ xs) ys = ground (arith, actions_at-append p xs ys)

-- Each file of a map has its key as its path.
abbrev Named : Dict Bytes FileInfo → Type 0
Named [] = Unit
Named ((p, f) ∷ m) = (f.path ≡ p) × Named m

insert-Named : (f : FileInfo) (m : Dict Bytes FileInfo) → Named m → Named (Dict.insert f.path f m)
unfolding Dict.insert
insert-Named f [] h = (refl, tt)
insert-Named f ((p, g) ∷ m) (e, h) = ground (arith, insert-Named f m h)

plain_map-Named : (fs : List FileInfo) (m : Dict Bytes FileInfo) → Named m → Named (plain_map fs m)
unfolding plain_map
plain_map-Named [] m h = h
plain_map-Named (f ∷ fs) m h = ground (
  arith,
  plain_map-Named fs m h,
  plain_map-Named fs (Dict.insert f.path f m) (insert-Named f m h),
)

plain_map-NodupKeys :
    (fs : List FileInfo) (m : Dict Bytes FileInfo) → NodupKeys m → NodupKeys (plain_map fs m)
unfolding plain_map
plain_map-NodupKeys [] m h = h
plain_map-NodupKeys (f ∷ fs) m h = ground (
  arith,
  plain_map-NodupKeys fs m h,
  plain_map-NodupKeys fs (Dict.insert f.path f m) (Dict.insert-NodupKeys f.path f m h),
)

-- How many keys of the second map are not in the first.
unfoldable pub only_in : Dict Bytes FileInfo → Dict Bytes FileInfo → ℕ
only_in map1 [] = 0
only_in map1 ((p, g) ∷ map2) =
    let rest = only_in map1 map2 in if Dict.contains p map1 then rest else suc rest

module _ (times_equal : ℕ → ℕ → Bool) (opts : Options) where
  -- The one thing to do about a path, from what the two sides have there, or nothing.
  abbrev pub wanted : Option FileInfo → Option FileInfo → List BisyncAction
  wanted none none = []
  wanted none (some g) = copy_to1 g ∷ []
  wanted (some f) none = copy_to2 f ∷ []
  wanted (some f) (some g) =
      if needs_update times_equal f g opts || needs_update times_equal g f opts
      then in_conflict f g ∷ []
      else []

  abbrev of_first : Option FileInfo → Option FileInfo → List BisyncAction
  of_first none o = []
  of_first (some f) o = wanted (some f) o

  categorize_lem :
      (p q : Bytes) (f : FileInfo) (o : Option FileInfo) (s : Scan)
      → f.path ≡ p
      → ((categorize times_equal opts p f o s).processed ≡ Dict.insert p true s.processed)
        × (actions_at q (categorize times_equal opts p f o s).actions ≡ (
            if q == p then wanted (some f) o ++ actions_at q s.actions else actions_at q s.actions))
        × (length (categorize times_equal opts p f o s).actions
              + (categorize times_equal opts p f o s).skipped
            ≡ suc (length s.actions + s.skipped))
  unfolding categorize actions_at
  categorize_lem p q f none s e = (refl, ground (arith, e), ground arith)
  categorize_lem p q f (some g) s e = (ground arith, ground (arith, e), ground arith)

  first_loop_lem :
      (map2 map1 : Dict Bytes FileInfo) (q : Bytes)
      → Named map1
      → NodupKeys map1
      → (actions_at q (first_loop times_equal opts map2 map1).actions
          ≡ of_first (Dict.lookup q map1) (Dict.lookup q map2))
        × (is_processed q (first_loop times_equal opts map2 map1).processed ≡ Dict.contains q map1)
        × (length (first_loop times_equal opts map2 map1).actions
              + (first_loop times_equal opts map2 map1).skipped
            ≡ length map1)
  unfolding first_loop Dict.lookup Dict.contains actions_at
  first_loop_lem map2 [] q named nodup = (refl, refl, omega arith)
  first_loop_lem map2 ((p, f) ∷ map1) q (e, named) (fresh, nodup) =
      let s = first_loop times_equal opts map2 map1 in
      let (done, found, count) = categorize_lem p q f (Dict.lookup p map2) s e in
      let (found', done', count') = first_loop_lem map2 map1 q named nodup in
      (
        ground (arith, found, found', fresh),
        ground (arith, done, done', Dict.lookup-insert q p true s.processed),
        ground (arith, count, count'),
      )

fresh_part : Bytes → Bool → Option FileInfo → List BisyncAction
fresh_part q true o = []
fresh_part q false none = []
fresh_part q false (some g) = copy_to1 g ∷ []

second_loop_lem :
    (processed : Dict Bytes Bool) (map1 map2 : Dict Bytes FileInfo) (q : Bytes)
    → ((p : Bytes) → is_processed p processed ≡ Dict.contains p map1)
    → Named map2
    → NodupKeys map2
    → (actions_at q (second_loop processed map2)
        ≡ fresh_part q (Dict.contains q map1) (Dict.lookup q map2))
      × (length (second_loop processed map2) ≡ only_in map1 map2)
unfolding second_loop Dict.lookup actions_at only_in fresh_part
second_loop_lem processed map1 [] q same named nodup = (ground arith, refl)
second_loop_lem processed map1 ((p, g) ∷ map2) q same (e, named) (fresh, nodup) =
    let (found, count) = second_loop_lem processed map1 map2 q same named nodup in
    (ground (arith, found, fresh, same p, e), ground (arith, count, same p))

module _ (times_equal : ℕ → ℕ → Bool) (opts : Options) where
  -- Whatever the two listings give: the actions for a path are the one that its files on the two
  -- sides call for, directories aside, or none if they are in sync or there is no file; and the
  -- actions and the skipped files together are as many as there are paths on either side.
  pub plan_bisync_exact :
      (files1 files2 : List FileInfo) (p : Bytes)
      → let map1 = plain_map files1 [] in
        let map2 = plain_map files2 [] in
        (actions_at p (plan_bisync times_equal opts files1 files2).actions
          ≡ wanted times_equal opts (Dict.lookup p map1) (Dict.lookup p map2))
        × (length (plan_bisync times_equal opts files1 files2).actions
              + (plan_bisync times_equal opts files1 files2).skipped
            ≡ length map1 + only_in map1 map2)
  unfolding plan_bisync fresh_part Dict.contains
  plan_bisync_exact files1 files2 p =
      let map1 = plain_map files1 [] in
      let map2 = plain_map files2 [] in
      let s = first_loop times_equal opts map2 map1 in
      let one = first_loop_lem times_equal opts map2 map1 in
      let named1 = plain_map-Named files1 [] tt in
      let nodup1 = plain_map-NodupKeys files1 [] tt in
      let (found1, done, count1) = one p named1 nodup1 in
      let (found2, count2) =
        second_loop_lem s.processed map1 map2 p (λ q. (one q named1 nodup1).1)
          (plain_map-Named files2 [] tt) (plain_map-NodupKeys files2 [] tt) in
      (
        ground
            (arith, found1, found2, actions_at-append p s.actions (second_loop s.processed map2)),
        ground (arith, count1, count2, length-append s.actions (second_loop s.processed map2)),
      )
