-- ===== src/Sync/Bisync/Plan.antt =====
-- sync/bisync.go, the part of `Bisync` under "Categorize files". Go visits a map in any order, here
-- in that of the listing.
use omnistorage.Base.{
  ℕ, suc, Bytes, bytes_eq, Bool, true, false, ◌||◌, List, [], ◌∷◌, ◌++◌, Option, none, some,
  if◌then◌else◌,
}
use omnistorage.Base.Dict
use omnistorage.Base.Dict.{Dict}
use omnistorage.Sync.Options.{Options, FileInfo, needs_update}
use omnistorage.Sync.Check.{plain_map}

-- `action`, with the directions that the code uses; a conflict has the other file as well.
pub data BisyncAction : Type 0 where
  copy_to2 copy_to1 : FileInfo → BisyncAction
  in_conflict : FileInfo → FileInfo → BisyncAction

pub record Scan : Type 0 where
  pub actions : List BisyncAction
  pub skipped : ℕ
  pub processed : Dict Bytes Bool

-- `processed[p]`, which is false where there is no entry.
abbrev pub is_processed : Bytes → Dict Bytes Bool → Bool
is_processed p processed = elim (Dict.lookup p processed) [ none ↦ false | some b ↦ b ]

module _ (times_equal : ℕ → ℕ → Bool) (opts : Options) where
  -- What a file of the first side comes to, given what the second has at its path.
  unfoldable pub categorize : Bytes → FileInfo → Option FileInfo → Scan → Scan
  categorize p f none s = record s {
    actions = copy_to2 f ∷ s.actions;
    processed = Dict.insert p true s.processed;
  }
  categorize p f (some g) s =
      if needs_update times_equal f g opts || needs_update times_equal g f opts
      then record s {
        actions = in_conflict f g ∷ s.actions;
        processed = Dict.insert p true s.processed;
      }
      else record s { skipped = suc s.skipped; processed = Dict.insert p true s.processed }

  unfoldable pub first_loop : Dict Bytes FileInfo → Dict Bytes FileInfo → Scan
  unfolding categorize
  first_loop map2 [] = record { actions = []; skipped = 0; processed = [] }
  first_loop map2 ((p, f) ∷ map1) = categorize p f (Dict.lookup p map2) (first_loop map2 map1)

unfoldable pub second_loop : Dict Bytes Bool → Dict Bytes FileInfo → List BisyncAction
second_loop processed [] = []
second_loop processed ((p, g) ∷ map2) =
    let rest = second_loop processed map2 in
    if is_processed p processed then rest else copy_to1 g ∷ rest

module _ (times_equal : ℕ → ℕ → Bool) (opts : Options) where
  -- From the two listings, without directories, to the actions.
  unfoldable pub plan_bisync : List FileInfo → List FileInfo → Scan
  unfolding first_loop second_loop
  plan_bisync files1 files2 =
      let map1 = plain_map files1 [] in
      let map2 = plain_map files2 [] in
      let s = first_loop times_equal opts map2 map1 in
      record s { actions = s.actions ++ second_loop s.processed map2 }
