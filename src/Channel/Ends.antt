-- ===== src/Channel/Ends.antt =====
-- Where a channel ends: `Delete` of its path, and `Close` of the backend.
use omnistorage.Base.{
  ℕ, Bytes, bytes_eq, nat_eq, ◌≡◌, true, false, [], ◌∷◌, none, some, Context, ok, arith,
  if◌then◌else◌, ◌==◌, Option-cases, inl, inr,
}
use omnistorage.Base.Dict
use omnistorage.Base.Dict.{Dict}
use omnistorage.Channel.State.{ChannelInfo, Backend, channels_of, deref, update, shut}
use omnistorage.Channel.Calls.{delete, delete_locked, close, shut_all}

deref-update :
    (h k : ℕ) (info : ChannelInfo) (b : Backend)
    → deref k (update h info b) ≡ (if k == h then info else deref k b)
unfolding deref update
deref-update h k info b = ground (arith, Dict.lookup-insert k h info b.heap)

abbrev pub Deleted : Bytes → Backend → Backend → Type 0
Deleted p b b' =
    ((q : Bytes)
      → Dict.lookup q (channels_of b') ≡ (if q == p then none else Dict.lookup q (channels_of b)))
    × ((k : ℕ)
        → deref k b' ≡ (elim (Dict.lookup p (channels_of b)) [
          | none ↦ deref k b
          | some h ↦ if k == h then shut (deref h b) else deref k b
        ]))

delete_locked_ends : (p : Bytes) (b : Backend) → Deleted p b (delete_locked p b).1
unfolding delete_locked update deref
delete_locked_ends p b = elim (Option-cases (Dict.lookup p (channels_of b))) [
  | inl e ↦ ((λ q. ground arith), λ k. ground arith)
  | inr (h, e) ↦ (
    (λ q. ground (arith, Dict.lookup-erase q p (channels_of b), Dict.lookup-nil {V = ℕ} q)),
    λ k. ground (arith, Dict.lookup-insert k h (shut (deref h b)) b.heap),
  )
]

-- A `Delete` that succeeds leaves no channel at the path and all others at theirs. The channel that
-- was there is closed for those who still hold it, with its messages; no other channel changes.
pub delete_ends :
    (ctx : Context) (p : Bytes) (b : Backend)
    → (delete ctx p b).0 ≡ ok tt
    → Deleted p b (delete ctx p b).1
delete_ends ctx p b done =
    let same : delete ctx p b ≡ delete_locked p b = unfold delete in ground arith in
    rw same (delete_locked_ends p b)

shut_all-closed :
    (d : Dict Bytes ℕ) (b : Backend) (k : ℕ)
    → (deref k b).closed ≡ true
    → (deref k (shut_all d b)).closed ≡ true
unfolding shut_all
shut_all-closed [] b k h = h
shut_all-closed ((p, j) ∷ d) b k h =
    shut_all-closed d (update j (shut (deref j b)) b) k
      (ground (arith, deref-update j k (shut (deref j b)) b))

shut_all_ends :
    (d : Dict Bytes ℕ) (b : Backend) (p : Bytes) (h : ℕ)
    → Dict.lookup p d ≡ some h
    → (deref h (shut_all d b)).closed ≡ true
unfolding shut_all Dict.lookup
shut_all_ends [] b p h e = cc
shut_all_ends ((q, j) ∷ d) b p h e = ground (
  arith,
  shut_all_ends d (update j (shut (deref j b)) b) p h,
  shut_all-closed d (update j (shut (deref j b)) b) h,
  deref-update j h (shut (deref j b)) b,
)

-- `Close` of an open backend closes every channel that has a path, for all who hold it.
pub close_ends :
    (b : Backend) (p : Bytes) (h : ℕ)
    → b.closed ≡ false
    → Dict.lookup p (channels_of b) ≡ some h
    → ((close b).1.closed ≡ true) × ((deref h (close b).1).closed ≡ true)
unfolding close deref
close_ends b p h unclosed e = ground (arith, shut_all_ends (channels_of b) b p h e)
