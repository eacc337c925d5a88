-- ===== src/Sync/Workers/Ends.antt =====
-- What is so when the workers have returned.
use omnistorage.Base.{
  ℕ, zero, suc, ◌+◌, ◌<◌, ◌≡◌, ◌⊎◌, refl, ap, arith, Bool, true, false, ◌||◌, List, [], ◌∷◌, Option,
  none, some, Error, Bool-cases, inl, inr, List-cases, length,
}
use omnistorage.Base.Int.{ℤ, pos, negsuc, ◌+ℤ◌, pos_part, neg_part, +ℤ_parts, eq_of_parts}
use omnistorage.Sync.Options.{Options}
use omnistorage.Sync.Compare.{CopyAction, total_bytes}
use omnistorage.Sync.Workers.{
  Worker, waiting, received, copying, counting, stopping, returned, Shared, Pool, Event, send,
  break_send, cancel, work, advance, advance_at, send_next, break_loop, step, run, start,
  idle_workers, concurrency_of, AllReturned,
}
use omnistorage.Sync.Workers.Bounds.{length-run, length-idle_workers}
use omnistorage.Sync.Workers.Total.{total, held, all_of, run-Conserved}
use omnistorage.Sync.Workers.Balance.{
  NotCanceled, one, nothing, fresh, renewed, size_up, size_down, handled-Conserved,
}
use omnistorage.Sync.Workers.Counted.{copied-Conserved, updated-Conserved, bytes-Conserved}

abbrev is_returned : Worker → Bool
is_returned returned = true
is_returned _ = false

unfoldable some_returned : List Worker → Bool
some_returned [] = false
some_returned (w ∷ ws) = is_returned w || some_returned ws

-- A channel that is closed gets nothing more, and a worker returns from one that is closed and empty,
-- or when the run is canceled.
record IsSettled (s : Shared) (ws : List Worker) : Type 0 where
  all_sent : s.closed ≡ true → s.pending ≡ []
  all_taken : s.canceled ≡ false → some_returned ws ≡ true → (s.closed ≡ true) × (s.queue ≡ [])

module _ (opts : Options) where
  -- What a worker's step leaves of the channel.
  channel_kept :
      (outcome : Option Error) (s : Shared) (w : Worker)
      → let (s', w') = advance opts outcome s w in
        (s'.closed ≡ s.closed)
        × (s'.pending ≡ s.pending)
        × (s.queue ≡ [] → s'.queue ≡ [])
        × (s'.canceled ≡ false → s.canceled ≡ false)
        × (s'.canceled ≡ false
            → is_returned w ≡ false
            → is_returned w' ≡ true
            → (s'.closed ≡ true) × (s'.queue ≡ []))
        × (is_returned w ≡ true → s' ≡ s)
  unfolding advance
  channel_kept outcome s waiting = ground (arith, List-cases s.queue, Bool-cases s.closed)
  channel_kept outcome s (received a) = ground (arith, Bool-cases s.canceled)
  channel_kept none s (copying a) = ground (arith, Bool-cases opts.dry_run)
  channel_kept (some e) s (copying a) = ground (arith, Bool-cases opts.dry_run)
  channel_kept outcome s (counting a) = ground arith
  channel_kept outcome s stopping = ground arith
  channel_kept outcome s returned = ground arith

  workers_kept :
      (outcome : Option Error) (i : ℕ) (s : Shared) (ws : List Worker)
      → let p = advance_at opts outcome i s ws in
        (p.shared.closed ≡ s.closed)
        × (p.shared.pending ≡ s.pending)
        × (s.queue ≡ [] → p.shared.queue ≡ [])
        × (p.shared.canceled ≡ false → s.canceled ≡ false)
        × (p.shared.canceled ≡ false
            → some_returned ws ≡ false
            → some_returned p.workers ≡ true
            → (p.shared.closed ≡ true) × (p.shared.queue ≡ []))
  unfolding advance_at some_returned
  workers_kept outcome i s [] = ground arith
  workers_kept outcome zero s (w ∷ ws) = ground (arith, channel_kept outcome s w)
  workers_kept outcome (suc i) s (w ∷ ws) = ground (arith, workers_kept outcome i s ws)

  step-IsSettled :
      (e : Event) (p : Pool)
      → IsSettled p.shared p.workers
      → IsSettled (step opts e p).shared (step opts e p).workers
  unfolding step send_next break_loop
  step-IsSettled send p h = ground (arith, List-cases p.shared.pending)
  step-IsSettled break_send p h = ground (arith, Bool-cases p.shared.canceled)
  step-IsSettled cancel p h = ground arith
  step-IsSettled (work i outcome) p h =
      ground
        (arith, workers_kept outcome i p.shared p.workers, Bool-cases (some_returned p.workers))

  run-IsSettled :
      (es : List Event) (p : Pool)
      → IsSettled p.shared p.workers
      → IsSettled (run opts es p).shared (run opts es p).workers
  unfolding run
  run-IsSettled [] p h = h
  run-IsSettled (e ∷ es) p h = run-IsSettled es (step opts e p) (step-IsSettled e p h)

-- Workers that have returned, or that wait, hold nothing.
returned-held :
    (f g : CopyAction → ℕ) (ws : List Worker) → AllReturned ws → all_of (held f g) ws ≡ 0
unfolding all_of
returned-held f g [] h = refl
returned-held f g (returned ∷ ws) h = omega (arith, returned-held f g ws h)
returned-held f g (waiting ∷ ws) h = absurd h
returned-held f g (received a ∷ ws) h = absurd h
returned-held f g (copying a ∷ ws) h = absurd h
returned-held f g (counting a ∷ ws) h = absurd h
returned-held f g (stopping ∷ ws) h = absurd h

idle-held : (f g : CopyAction → ℕ) (n : ℕ) → all_of (held f g) (idle_workers n) ≡ 0
unfolding all_of idle_workers
idle-held f g zero = refl
idle-held f g (suc n) = omega (arith, idle-held f g n)

idle-some_returned : (n : ℕ) → some_returned (idle_workers n) ≡ false
unfolding some_returned idle_workers
idle-some_returned zero = refl
idle-some_returned (suc n) = idle-some_returned n

-- There is a worker, so if all have returned then one has.
one_returned : (ws : List Worker) → 0 < length ws → AllReturned ws → some_returned ws ≡ true
unfolding some_returned
one_returned [] h a = absurd (omega arith)
one_returned (returned ∷ ws) h a = refl
one_returned (waiting ∷ ws) h a = absurd a
one_returned (received b ∷ ws) h a = absurd a
one_returned (copying b ∷ ws) h a = absurd a
one_returned (counting b ∷ ws) h a = absurd a
one_returned (stopping ∷ ws) h a = absurd a

ℤ-cases : (z : ℤ) → ((n : ℕ) × (z ≡ pos n)) ⊎ ((n : ℕ) × (z ≡ negsuc n))
ℤ-cases (pos n) = inl (n, refl)
ℤ-cases (negsuc n) = inr (n, refl)

pub concurrency_of_pos : (opts : Options) → 0 < concurrency_of opts
unfolding concurrency_of
concurrency_of_pos opts = elim (ℤ-cases opts.concurrency) [
  | inl (zero, e) ↦ ground (arith, e)
  | inl (suc n, e) ↦ ground (arith, e)
  | inr (n, e) ↦ ground (arith, e)
]

total-one : (actions : List CopyAction) → total one actions ≡ length actions
unfolding total
total-one [] = refl
total-one (a ∷ actions) = omega (arith, total-one actions)

total_bytes-parts :
    (actions : List CopyAction) (z : ℤ)
    → pos_part (total_bytes actions z) + total size_down actions + neg_part z
      ≡ neg_part (total_bytes actions z) + total size_up actions + pos_part z
unfolding total total_bytes
total_bytes-parts [] z = omega arith
total_bytes-parts (a ∷ actions) z =
    omega (arith, total_bytes-parts actions (z +ℤ a.file.size), +ℤ_parts z a.file.size)

all_of-zero : (ws : List Worker) → all_of (λ w. 0) ws ≡ 0
unfolding all_of
all_of-zero [] = refl
all_of-zero (w ∷ ws) = omega (arith, all_of-zero ws)

module _ (opts : Options) (actions : List CopyAction) (es : List Event) where
  ended : Pool
  ended = run opts es (start opts actions)

  -- When all have returned from a run that is not canceled, the channel and the sender have nothing.
  emptied :
      AllReturned ended.workers
      → NotCanceled ended.shared
      → (ended.shared.pending ≡ []) × (ended.shared.queue ≡ [])
  unfolding ended start
  emptied all_done h =
      let first : IsSettled (start opts actions).shared (start opts actions).workers = record {
        all_sent = λ e. cc;
        all_taken = λ _ e.
            let none_yet = idle-some_returned (concurrency_of opts) in
            absurd (ground (arith, e, none_yet));
      } in
      let settled = run-IsSettled opts es (start opts actions) first in
      let there : 0 < length ended.workers = omega (
        arith,
        length-run opts es (start opts actions),
        length-idle_workers (concurrency_of opts),
        concurrency_of_pos opts,
      ) in
      let (closed, queue) = settled.all_taken h (one_returned ended.workers there all_done) in
      (settled.all_sent closed, queue)

  -- What one of the measures says of a run that has ended.
  sums_up :
      (f g : CopyAction → ℕ)
      → AllReturned ended.workers
      → NotCanceled ended.shared
      → (total f ended.shared.pending ≡ 0)
        × (total f ended.shared.queue ≡ 0)
        × (all_of (held f g) ended.workers ≡ 0)
        × (all_of (held f g) (start opts actions).workers ≡ 0)
        × (all_of (λ w. 0) ended.workers ≡ 0)
        × (all_of (λ w. 0) (start opts actions).workers ≡ 0)
  unfolding start total
  sums_up f g all_done h =
      let (pending, queue) = emptied all_done h in
      (
        ap (total f) pending,
        ap (total f) queue,
        returned-held f g ended.workers all_done,
        idle-held f g (concurrency_of opts),
        all_of-zero ended.workers,
        all_of-zero (start opts actions).workers,
      )

  -- When all workers have returned, whatever the order of their steps was, and nothing was canceled:
  -- each action is counted once, as copied, as updated or as an error; and if there are no errors, the
  -- copied are the new ones, the updated the others, and the bytes are the sum of the sizes.
  pub pool_complete :
      AllReturned (run opts es (start opts actions)).workers
      → NotCanceled (run opts es (start opts actions)).shared
      → let s = (run opts es (start opts actions)).shared in
        (s.copied + s.updated + length s.errors ≡ length actions)
        × (s.errors ≡ []
            → (s.copied ≡ total fresh actions)
              × (s.updated ≡ total renewed actions)
              × (s.bytes_transferred ≡ total_bytes actions (pos 0)))
  unfolding start total ended
  pool_complete all_done h =
      let (_, e) = run-Conserved opts (handled-Conserved opts) es (start opts actions) h in
      (
        omega (arith, e, sums_up one nothing all_done h, total-one actions),
        λ clean.
            let (_, c) =
              run-Conserved opts (copied-Conserved opts) es (start opts actions) (h, clean) in
            let (_, u) =
              run-Conserved opts (updated-Conserved opts) es (start opts actions) (h, clean) in
            let (_, z) =
              run-Conserved opts (bytes-Conserved opts) es (start opts actions) (h, clean) in
            (
              omega (arith, c, sums_up fresh nothing all_done h),
              omega (arith, u, sums_up renewed nothing all_done h),
              eq_of_parts ended.shared.bytes_transferred (total_bytes actions (pos 0)) (
                  omega (
                    arith,
                    z,
                    sums_up size_up size_up all_done h,
                    sums_up size_down size_down all_done h,
                    total_bytes-parts actions (pos 0),
                  )),
            ),
      )
