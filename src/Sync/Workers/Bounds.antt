-- ===== src/Sync/Workers/Bounds.antt =====
-- How many errors a run with several workers may have.
use omnistorage.Base.{
  ℕ, zero, suc, ◌+◌, ◌≤◌, ◌≡◌, refl, ◌⊎◌, inl, inr, arith, List, [], ◌∷◌, ◌++◌, Option, none, some,
  Error, Bool-cases, List-cases, length, length-append, leb,
}
use omnistorage.Base.Int.{pos}
use omnistorage.Sync.Options.{Options}
use omnistorage.Sync.Compare.{CopyAction}
use omnistorage.Sync.Run.{should_stop}
use omnistorage.Sync.Workers.{
  Worker, waiting, received, copying, counting, stopping, returned, Shared, Pool, Event, send,
  break_send, cancel, work, advance, advance_at, send_next, break_loop, step, run, start,
  idle_workers, concurrency_of,
}
use omnistorage.Sync.Workers.Total.{all_of}
use omnistorage.Sync.Workers.Balance.{failure}

-- A worker that adds no error any more.
abbrev is_out : Worker → ℕ
is_out stopping = 1
is_out returned = 1
is_out _ = 0

at_most_one : (w : Worker) → is_out w ≤ 1
at_most_one waiting = omega arith
at_most_one (received a) = omega arith
at_most_one (copying a) = omega arith
at_most_one (counting a) = omega arith
at_most_one stopping = omega arith
at_most_one returned = omega arith

module _ (opts : Options) (m : ℕ) (limited : opts.max_errors ≡ pos (suc m)) where
  -- An error beyond the limit takes its worker out.
  worker_bound :
      (outcome : Option Error) (s : Shared) (w : Worker)
      → (length (advance opts outcome s w).0.errors ≤ m)
        ⊎ (length (advance opts outcome s w).0.errors + is_out w
            ≤ length s.errors + is_out (advance opts outcome s w).1)
  unfolding advance should_stop
  worker_bound outcome s waiting = inr (ground (arith, List-cases s.queue, Bool-cases s.closed))
  worker_bound outcome s (received a) = inr (ground (arith, Bool-cases s.canceled))
  worker_bound none s (copying a) = inr (ground (arith, Bool-cases opts.dry_run))
  worker_bound (some e) s (copying a) =
      let errors = s.errors ++ (failure a e ∷ []) in
      let longer : length errors ≡ length s.errors + 1 =
        length-append s.errors (failure a e ∷ []) in
      elim (Bool-cases opts.dry_run) [
        | inl dry ↦ inr (ground (arith, dry))
        | inr wet ↦ elim (Bool-cases (leb (suc m) (length errors))) [
          | inl full ↦ inr (ground (arith, wet, full, limited, longer))
          | inr room ↦ inl (ground (arith, wet, room, limited))
        ]
      ]
  worker_bound outcome s (counting a) = inr (omega arith)
  worker_bound outcome s stopping = inr (omega arith)
  worker_bound outcome s returned = inr (omega arith)

  workers_bound :
      (outcome : Option Error) (i : ℕ) (s : Shared) (ws : List Worker)
      → let p = advance_at opts outcome i s ws in
        (length p.shared.errors ≤ m)
        ⊎ (length p.shared.errors + all_of is_out ws ≤ length s.errors + all_of is_out p.workers)
  unfolding advance_at all_of
  workers_bound outcome i s [] = inr (omega arith)
  workers_bound outcome zero s (w ∷ ws) = elim (worker_bound outcome s w) [
    | inl few ↦ inl few
    | inr more ↦ inr (omega arith)
  ]
  workers_bound outcome (suc i) s (w ∷ ws) = elim (workers_bound outcome i s ws) [
    | inl few ↦ inl few
    | inr more ↦ inr (omega arith)
  ]

  abbrev Bounded : Pool → Type 0
  Bounded p = length p.shared.errors ≤ m + all_of is_out p.workers

  step-Bounded : (e : Event) (p : Pool) → Bounded p → Bounded (step opts e p)
  unfolding step send_next break_loop
  step-Bounded send p h = ground (arith, List-cases p.shared.pending)
  step-Bounded break_send p h = ground (arith, Bool-cases p.shared.canceled)
  step-Bounded cancel p h = h
  step-Bounded (work i outcome) p h = elim (workers_bound outcome i p.shared p.workers) [
    | inl few ↦ omega (arith, few)
    | inr more ↦ omega (arith, more)
  ]

  run-Bounded : (es : List Event) (p : Pool) → Bounded p → Bounded (run opts es p)
  unfolding run
  run-Bounded [] p h = h
  run-Bounded (e ∷ es) p h = run-Bounded es (step opts e p) (step-Bounded e p h)

length-advance_at :
    (opts : Options) (outcome : Option Error) (i : ℕ) (s : Shared) (ws : List Worker)
    → length (advance_at opts outcome i s ws).workers ≡ length ws
unfolding advance_at
length-advance_at opts outcome i s [] = refl
length-advance_at opts outcome zero s (w ∷ ws) = refl
length-advance_at opts outcome (suc i) s (w ∷ ws) =
    omega (arith, length-advance_at opts outcome i s ws)

-- There are as many workers as at the start.
pub length-run :
    (opts : Options) (es : List Event) (p : Pool)
    → length (run opts es p).workers ≡ length p.workers
unfolding run step
length-run opts [] p = refl
length-run opts (send ∷ es) p = length-run opts es (step opts send p)
length-run opts (break_send ∷ es) p = length-run opts es (step opts break_send p)
length-run opts (cancel ∷ es) p = length-run opts es (step opts cancel p)
length-run opts (work i outcome ∷ es) p = omega (
  arith,
  length-run opts es (step opts (work i outcome) p),
  length-advance_at opts outcome i p.shared p.workers,
)

all_out-le : (ws : List Worker) → all_of is_out ws ≤ length ws
unfolding all_of
all_out-le [] = omega arith
all_out-le (w ∷ ws) = let here : is_out w ≤ 1 = at_most_one w in omega (arith, all_out-le ws)

pub length-idle_workers : (n : ℕ) → length (idle_workers n) ≡ n
unfolding idle_workers
length-idle_workers zero = refl
length-idle_workers (suc n) = omega (arith, length-idle_workers n)

-- In any order of the steps: with a positive `MaxErrors`, a run of the workers adds at most as many
-- errors as that and one more for each further worker.
pub pool_errors_bounded :
    (opts : Options) (m : ℕ) (actions : List CopyAction) (es : List Event)
    → opts.max_errors ≡ pos (suc m)
    → length (run opts es (start opts actions)).shared.errors ≤ m + concurrency_of opts
unfolding start
pool_errors_bounded opts m actions es limited =
    let p = run opts es (start opts actions) in
    omega (
      arith,
      run-Bounded opts m limited es (start opts actions) (omega arith),
      all_out-le p.workers,
      length-run opts es (start opts actions),
      length-idle_workers (concurrency_of opts),
    )
