-- ===== src/Sync/Workers/Balance.antt =====
-- No schedule of the workers loses an action or counts one twice.
use omnistorage.Base.{
  ℕ, ◌+◌, ◌≡◌, arith, false, [], ◌∷◌, ◌++◌, Option, none, some, Error, if◌then◌else◌, Bool-cases,
  Option-cases, List-cases, codes, length, length-append,
}
use omnistorage.Base.Int.{pos_part, neg_part}
use omnistorage.Sync.Options.{Options, FileError}
use omnistorage.Sync.Compare.{CopyAction}
use omnistorage.Sync.Run.{should_stop}
use omnistorage.Sync.Workers.{
  Worker, waiting, received, copying, counting, stopping, returned, Shared, advance, send_next,
}
use omnistorage.Sync.Workers.Total.{total, held, unclaimed, send_next-total, Conserved}

abbrev pub NotCanceled : Shared → Type 0
NotCanceled s = s.canceled ≡ false

abbrev pub Clean : Shared → Type 0
Clean s = (s.canceled ≡ false) × (s.errors ≡ [])

-- Weights: every action, those of a kind, and the two parts of a size.
abbrev pub one : CopyAction → ℕ
one a = 1

abbrev pub nothing : CopyAction → ℕ
nothing a = 0

abbrev pub fresh : CopyAction → ℕ
fresh a = if a.is_update then 0 else 1

abbrev pub renewed : CopyAction → ℕ
renewed a = if a.is_update then 1 else 0

abbrev pub size_up : CopyAction → ℕ
size_up a = pos_part a.file.size

abbrev pub size_down : CopyAction → ℕ
size_down a = neg_part a.file.size

abbrev pub handled : Shared → ℕ
handled s = s.copied + s.updated + length s.errors

abbrev pub failure : CopyAction → Error → FileError
failure a e = record { path = a.file.path; op = codes "copy"; error = e }

module _ (opts : Options) where
  pub before_cancel :
      (outcome : Option Error) (s : Shared) (w : Worker)
      → NotCanceled (advance opts outcome s w).0
      → NotCanceled s
  unfolding advance
  before_cancel outcome s waiting h = ground (arith, List-cases s.queue)
  before_cancel outcome s (received a) h = h
  before_cancel outcome s (copying a) h = ground (arith, Option-cases outcome)
  before_cancel outcome s (counting a) h = h
  before_cancel outcome s stopping h = cc
  before_cancel outcome s returned h = h

  pub before_sender : (s : Shared) → (send_next s).canceled ≡ s.canceled
  unfolding send_next
  before_sender s = ground (arith, List-cases s.pending)

  handled_by_worker :
      (outcome : Option Error) (s : Shared) (w : Worker)
      → NotCanceled s
      → handled (advance opts outcome s w).0
          + unclaimed one (advance opts outcome s w).0
          + held one nothing (advance opts outcome s w).1
        ≡ handled s + unclaimed one s + held one nothing w
  unfolding advance total
  handled_by_worker outcome s waiting h = ground (arith, List-cases s.queue)
  handled_by_worker outcome s (received a) h = ground (arith, h)
  handled_by_worker none s (copying a) h =
      ground (arith, Bool-cases opts.dry_run, Bool-cases a.is_update)
  handled_by_worker (some e) s (copying a) h = ground (
    arith,
    Bool-cases opts.dry_run,
    Bool-cases a.is_update,
    length-append s.errors (failure a e ∷ []),
    Bool-cases (should_stop opts (s.errors ++ (failure a e ∷ []))),
  )
  handled_by_worker outcome s (counting a) h = omega arith
  handled_by_worker outcome s stopping h = omega arith
  handled_by_worker outcome s returned h = omega arith

  handled_by_sender : (s : Shared) → handled (send_next s) ≡ handled s
  unfolding send_next
  handled_by_sender s = ground (arith, List-cases s.pending)

  -- While nothing is canceled, an action is with the sender, in the channel, with a worker, or
  -- handled.
  pub handled-Conserved :
      Conserved opts NotCanceled
        (λ s. handled s + unclaimed one s)
        (held one nothing)
        (λ s. 0)
        (λ w. 0)
  handled-Conserved = record {
    by_worker =
        λ outcome s w h. omega (arith, handled_by_worker outcome s w (before_cancel outcome s w h));
    by_sender = λ s. omega (arith, handled_by_sender s, send_next-total one s);
    not_canceled = λ s h. h;
    before_worker = before_cancel;
    before_sender = λ s h. cc (before_sender s);
  }

  pub no_error : (a : CopyAction) (e : Error) (s : Shared) → ¬ (s.errors ++ (failure a e ∷ []) ≡ [])
  no_error a e s h = ground (arith, List-cases s.errors, h)

  pub before_error :
      (outcome : Option Error) (s : Shared) (w : Worker)
      → Clean (advance opts outcome s w).0
      → Clean s
  before_error outcome s waiting h = unfold advance in ground (arith, List-cases s.queue)
  before_error outcome s (received a) h = unfold advance in h
  before_error none s (copying a) h = unfold advance in ground (arith, Bool-cases opts.dry_run)
  before_error (some e) s (copying a) h =
      unfold advance in ground (arith, Bool-cases opts.dry_run, no_error a e s)
  before_error outcome s (counting a) h = unfold advance in h
  before_error outcome s stopping h = unfold advance in cc
  before_error outcome s returned h = unfold advance in h
