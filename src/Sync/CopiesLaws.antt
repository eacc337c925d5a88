-- ===== src/Sync/CopiesLaws.antt =====
-- What `Copy` never does.
use omnistorage.Base.{Bytes, ◌≡◌, refl, Bool, false, ok, Context, arith, Result-cases, inl, inr}
use omnistorage.Backends.{Backend}
use omnistorage.Sync.Options.{Options, SyncResult}
use omnistorage.Sync.Compare.{Plan, to_delete}
use omnistorage.Sync.Listing.{Environment}
use omnistorage.Sync.Run.{transfer, delete_loop, execute, sync, new_result}
use omnistorage.Sync.TransferLaws.{transfer_grows}
use omnistorage.Sync.Outcomes.{sync-Ran, plan}
use omnistorage.Sync.Copies.{copy, copy_alone, copy_one}

module _ {W : Type 0} (env : Environment) (opts : Options) (same : Bool) (S D : Backend W)
    (src dst : Bytes) where
  execute_undeleted :
      (p : Plan) (w : W) (r : SyncResult)
      → opts.delete_extra ≡ false
      → (execute env opts same S D src dst p (w, r)).1.1.deleted ≡ r.deleted
  unfolding execute to_delete
  execute_undeleted p w r kept =
      let t = transfer env opts same S D src dst 0 p.to_copy (w, r) in
      let (_, _, same_count) = transfer_grows env opts same S D src dst 0 p.to_copy w r in
      elim (Result-cases t.0) [
        | inl (_, k) ↦ unfold delete_loop in ground (arith, same_count)
        | inr (inl (x, k)) ↦ ground (arith, same_count)
        | inr (inr k) ↦ ground (arith, same_count)
      ]

  sync_undeleted :
      (w : W) (r : SyncResult) (c : Context)
      → opts.delete_extra ≡ false
      → (sync env opts same S D src dst w).0 ≡ ok (r, c)
      → r.deleted ≡ 0
  sync_undeleted w r c kept done =
      let ran = sync-Ran env opts same S D src dst w r c done in
      let p = plan env opts same S D src dst w ran.src_files ran.dst_files in
      ground (
        arith,
        ran.executed,
        execute_undeleted p ran.before (new_result env opts same S D src dst p) kept,
      )

module _ {W : Type 0} (same : Bool) (S D : Backend W) where
  alone_undeleted :
      (opts : Options) (src dst : Bytes) (w : W) (r : SyncResult)
      → (copy_alone same S D opts src dst w).0 ≡ ok r
      → r.deleted ≡ 0
  unfolding copy_alone
  alone_undeleted opts src dst w r done = unfold copy_one in ground arith

  -- A `Copy` that gives a result has deleted nothing, even with the option DeleteExtra.
  pub copy_deletes_nothing :
      (env : Environment) (opts : Options) (src dst : Bytes) (w : W) (r : SyncResult) (c : Context)
      → (copy same S D env opts src dst w).0 ≡ ok (r, c)
      → r.deleted ≡ 0
  unfolding copy
  copy_deletes_nothing env opts src dst w r c done =
      let kept : Options = record opts { delete_extra = false } in
      let w1 = (S.exists src w).1 in
      let w2 = (S.list src w1).1 in
      ground (
        arith,
        sync_undeleted env kept same S D src dst w2 r c refl,
        alone_undeleted opts src dst w2 r,
      )
