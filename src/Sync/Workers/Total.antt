-- ===== src/Sync/Workers/Total.antt =====
-- What is still to be counted of the actions of a pool, by any weight.
use mathlib.Core.Path.{subst}
use omnistorage.Base.{
  ℕ, zero, suc, ◌+◌, ◌≡◌, ap, arith, false, List, [], ◌∷◌, ◌++◌, Option, Error, Bool-cases, inl,
  inr, List-cases,
}
use omnistorage.Sync.Options.{Options}
use omnistorage.Sync.Compare.{CopyAction}
use omnistorage.Sync.Workers.{
  Worker, waiting, received, copying, counting, stopping, returned, Shared, Pool, Event, send,
  break_send, cancel, work, advance, advance_at, send_next, break_loop, step, run,
}

module _ (weight : CopyAction → ℕ) where
  unfoldable pub total : List CopyAction → ℕ
  total [] = 0
  total (a ∷ actions) = weight a + total actions

  pub total-append : (xs ys : List CopyAction) → total (xs ++ ys) ≡ total xs + total ys
  unfolding total
  total-append [] ys = omega arith
  total-append (a ∷ xs) ys = omega (arith, total-append xs ys)

  -- What is not with a worker yet.
  abbrev pub unclaimed : Shared → ℕ
  unclaimed s = total s.pending + total s.queue

  -- What the sender does takes nothing away.
  pub send_next-total :
      (s : Shared)
      → total (send_next s).pending + total (send_next s).queue ≡ total s.pending + total s.queue
  unfolding send_next total
  send_next-total s = elim (List-cases s.pending) [
    | inl e ↦ ground (arith, e)
    | inr (a, rest, e) ↦ ground (arith, e, total-append s.queue (a ∷ []))
  ]

-- What a worker has not counted yet; `late` is what remains when the number is counted.
module _ (weight late : CopyAction → ℕ) where
  abbrev pub held : Worker → ℕ
  held waiting = 0
  held (received a) = weight a
  held (copying a) = weight a
  held (counting a) = late a
  held stopping = 0
  held returned = 0

-- A sum over the workers.
unfoldable pub all_of : (Worker → ℕ) → List Worker → ℕ
all_of h [] = 0
all_of h (w ∷ ws) = h w + all_of h ws

-- Two measures of what is shared and of a worker, whose difference no step changes, as long as the
-- state is one that `Alive` allows; a state that it allows comes from one that it allows.
pub record Conserved (opts : Options) (Alive : Shared → Type 0) (more : Shared → ℕ)
    (here : Worker → ℕ) (less : Shared → ℕ) (there : Worker → ℕ) : Type 0 where
  pub by_worker :
      (outcome : Option Error) (s : Shared) (w : Worker)
      → Alive (advance opts outcome s w).0
      → more (advance opts outcome s w).0 + here (advance opts outcome s w).1 + less s + there w
        ≡ more s + here w + less (advance opts outcome s w).0 + there (advance opts outcome s w).1
  pub by_sender : (s : Shared) → more (send_next s) + less s ≡ more s + less (send_next s)
  pub not_canceled : (s : Shared) → Alive s → s.canceled ≡ false
  pub before_worker :
      (outcome : Option Error) (s : Shared) (w : Worker)
      → Alive (advance opts outcome s w).0
      → Alive s
  pub before_sender : (s : Shared) → Alive (send_next s) → Alive s

break_loop-eq : (s : Shared) → (break_loop s).canceled ≡ false → break_loop s ≡ s
unfolding break_loop
break_loop-eq s h = ground (arith, Bool-cases s.canceled)

module _ (opts : Options) {Alive : Shared → Type 0} {more less : Shared → ℕ}
    {here there : Worker → ℕ} (C : Conserved opts Alive more here less there) where
  advance_at-Conserved :
      (outcome : Option Error) (i : ℕ) (s : Shared) (ws : List Worker)
      → let p = advance_at opts outcome i s ws in
        Alive p.shared
        → Alive s
          × (more p.shared + all_of here p.workers + less s + all_of there ws
              ≡ more s + all_of here ws + less p.shared + all_of there p.workers)
  unfolding advance_at all_of
  advance_at-Conserved outcome i s [] a = (a, omega arith)
  advance_at-Conserved outcome zero s (w ∷ ws) a =
      (C.before_worker outcome s w a, omega (arith, C.by_worker outcome s w a))
  advance_at-Conserved outcome (suc i) s (w ∷ ws) a =
      let (before, e) = advance_at-Conserved outcome i s ws a in (before, omega (arith, e))

  step-Conserved :
      (e : Event) (p : Pool)
      → let q = step opts e p in
        Alive q.shared
        → Alive p.shared
          × (more q.shared + all_of here q.workers + less p.shared + all_of there p.workers
              ≡ more p.shared + all_of here p.workers + less q.shared + all_of there q.workers)
  unfolding step
  step-Conserved send p a = (C.before_sender p.shared a, omega (arith, C.by_sender p.shared))
  step-Conserved break_send p a =
      let same = break_loop-eq p.shared (C.not_canceled (break_loop p.shared) a) in
      (subst Alive same a, omega (arith, ap more same, ap less same))
  step-Conserved cancel p a = let h = C.not_canceled _ a in absurd (ground (arith, h))
  step-Conserved (work i outcome) p a = advance_at-Conserved outcome i p.shared p.workers a

  pub run-Conserved :
      (es : List Event) (p : Pool)
      → let q = run opts es p in
        Alive q.shared
        → Alive p.shared
          × (more q.shared + all_of here q.workers + less p.shared + all_of there p.workers
              ≡ more p.shared + all_of here p.workers + less q.shared + all_of there q.workers)
  unfolding run
  run-Conserved [] p a = (a, omega arith)
  run-Conserved (e ∷ es) p a =
      let (between, later) = run-Conserved es (step opts e p) a in
      let (before, now) = step-Conserved e p between in (before, omega (arith, later, now))
