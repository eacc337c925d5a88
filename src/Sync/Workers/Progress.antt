-- ===== src/Sync/Workers/Progress.antt =====
-- No schedule of the workers runs into a deadlock.
use omnistorage.Base.{
  ℕ, zero, suc, ◌+◌, ◌*◌, ◌<◌, ◌≡◌, refl, ◌⊎◌, inl, inr, arith, true, List, [], ◌∷◌, none,
  if◌then◌else◌, Bool-cases, List-cases, length, length-append,
}
use omnistorage.Sync.Options.{Options}
use omnistorage.Sync.Workers.{
  Worker, waiting, received, copying, counting, stopping, returned, Shared, Pool, Event, send, work,
  advance, advance_at, send_next, step, run, AllReturned,
}
use omnistorage.Sync.Workers.Total.{all_of}

-- How many steps a worker has at most before it takes its next action, and one more.
abbrev rank : Worker → ℕ
rank returned = 0
rank waiting = 1
rank stopping = 1
rank (counting a) = 2
rank (copying a) = 3
rank (received a) = 4

abbrev to_send : Shared → ℕ
to_send s = 5 * length s.pending + (if s.closed then 0 else 1)

abbrev steps_left : Shared → List Worker → ℕ
steps_left s ws = to_send s + 4 * length s.queue + all_of rank ws

module _ (opts : Options) where
  -- What the step of a worker leaves, once the sender is done.
  abbrev Sent : Shared → Type 0
  Sent s = (s.pending ≡ []) × (s.closed ≡ true)

  worker_progress :
      (s : Shared) (w : Worker)
      → Sent s
      → (w ≡ returned)
        ⊎ (Sent (advance opts none s w).0
            × (4 * length (advance opts none s w).0.queue + rank (advance opts none s w).1
                < 4 * length s.queue + rank w))
  unfolding advance
  worker_progress s waiting h = inr (ground (arith, List-cases s.queue))
  worker_progress s (received a) h = inr (ground (arith, Bool-cases s.canceled))
  worker_progress s (copying a) h = inr (ground (arith, Bool-cases opts.dry_run))
  worker_progress s (counting a) h = inr (ground arith)
  worker_progress s stopping h = inr (ground arith)
  worker_progress s returned h = inl refl

  abbrev Less : Shared → List Worker → ℕ → Type 0
  Less s ws i =
      Sent (advance_at opts none i s ws).shared
      × (4 * length (advance_at opts none i s ws).shared.queue
            + all_of rank (advance_at opts none i s ws).workers
          < 4 * length s.queue + all_of rank ws)

  front :
      (s : Shared) (w : Worker) (ws : List Worker)
      → Sent s
      → ¬ (w ≡ returned)
      → (i : ℕ) × Less s (w ∷ ws) i
  unfolding advance_at all_of
  front s w ws h ne = elim (worker_progress s w h) [
    | inl e ↦ absurd (ne e)
    | inr (kept, less) ↦ (0, (kept, omega (arith, less)))
  ]

  workers_progress :
      (s : Shared) (ws : List Worker) → Sent s → AllReturned ws ⊎ ((i : ℕ) × Less s ws i)
  unfolding advance_at all_of
  workers_progress s [] h = inl tt
  workers_progress s (returned ∷ ws) h = elim (workers_progress s ws h) [
    | inl done ↦ inl done
    | inr (i, (kept, less)) ↦ inr (suc i, (kept, omega (arith, less)))
  ]
  workers_progress s (waiting ∷ ws) h = inr (front s waiting ws h λ e. cc)
  workers_progress s (received a ∷ ws) h = inr (front s (received a) ws h λ e. cc)
  workers_progress s (copying a ∷ ws) h = inr (front s (copying a) ws h λ e. cc)
  workers_progress s (counting a ∷ ws) h = inr (front s (counting a) ws h λ e. cc)
  workers_progress s (stopping ∷ ws) h = inr (front s stopping ws h λ e. cc)

  send_progress :
      (s : Shared)
      → Sent s
        ⊎ (to_send (send_next s) + 4 * length (send_next s).queue < to_send s + 4 * length s.queue)
  unfolding send_next
  send_progress s = elim (List-cases s.pending) [
    | inl e ↦ elim (Bool-cases s.closed) [
      | inl shut ↦ inl (e, shut)
      | inr not_yet ↦ inr (ground (arith, e, not_yet))
    ]
    | inr (a, rest, e) ↦ inr (ground (arith, e, length-append s.queue (a ∷ [])))
  ]

  Ends : Pool → Type 0
  Ends p = (es : List Event) × AllReturned (run opts es p).workers

  Ends-below : (n : ℕ) (p : Pool) → steps_left p.shared p.workers < n → Ends p
  unfolding run step Ends
  Ends-below zero p h = absurd (omega arith)
  Ends-below (suc n) p h = elim (send_progress p.shared) [
    | inr less ↦
        let (es, done) = Ends-below n (step opts send p) (omega (arith, less)) in (send ∷ es, done)
    | inl sent ↦ elim (workers_progress p.shared p.workers sent) [
      | inl done ↦ ([], done)
      | inr (i, (kept, less)) ↦
          let (es, done) =
            Ends-below n (step opts (work i none) p) (ground (arith, kept, less, sent)) in
          (work i none ∷ es, done)
    ]
  ]

  -- From every state of the pool, whatever has happened before, there are steps after which all
  -- workers have returned: none waits for ever.
  pub pool_ends : (p : Pool) → (es : List Event) × AllReturned (run opts es p).workers
  unfolding Ends
  pool_ends p = Ends-below (suc (steps_left p.shared p.workers)) p (omega arith)
