-- ===== src/Sync/Workers.antt =====
-- sync/sync.go, the worker pool of `Sync`: the sender, the channel and the workers, whose steps come
-- in any order. An event says who goes next, and how a copy that returns then has ended; what a copy
-- does to the backends is in Sync/Listing.
pub mod Total
pub mod Balance
pub mod Bounds
pub mod Counted
pub mod Ends
pub mod Progress
use omnistorage.Base.{
  ℕ, zero, suc, Bool, true, false, List, [], ◌∷◌, ◌++◌, codes, Option, none, some, Error,
  if◌then◌else◌,
}
use omnistorage.Base.Int.{ℤ, pos, negsuc, ◌+ℤ◌}
use omnistorage.Sync.Options.{Options, FileError}
use omnistorage.Sync.Compare.{CopyAction}
use omnistorage.Sync.Run.{should_stop}

-- Where a worker stands, with the action that it has.
pub data Worker : Type 0 where
  -- At the head of `for action := range workCh`.
  waiting : Worker
  -- Before the look at the context.
  received : CopyAction → Worker
  -- In `copyFileWithContext`.
  copying : CopyAction → Worker
  -- Counted as copied or updated, but its bytes are not.
  counting : CopyAction → Worker
  -- The limit of errors is reached, before `cancelCopy`.
  stopping : Worker
  returned : Worker

-- What the goroutines share: `pending` is what the sender has not sent yet, `queue` is in `workCh`,
-- and `canceled` says that `copyCtx` is done.
pub record Shared : Type 0 where
  pub pending : List CopyAction
  pub queue : List CopyAction
  pub closed : Bool
  pub canceled : Bool
  pub errors : List FileError
  pub copied : ℕ
  pub updated : ℕ
  pub bytes_transferred : ℤ

pub record Pool : Type 0 where
  pub shared : Shared
  pub workers : List Worker

-- `send` is the sender's next step, `break_send` that it leaves its loop, `cancel` that the caller's
-- context ends, and `work i e` is the step of a worker, with the error of the copy if it is in one.
pub data Event : Type 0 where
  send break_send cancel : Event
  work : ℕ → Option Error → Event

-- `copied.Add(1)` or `updated.Add(1)`
abbrev pub count : CopyAction → Shared → Shared
count a s = record s {
  copied = if a.is_update then s.copied else suc s.copied;
  updated = if a.is_update then suc s.updated else s.updated;
}

abbrev pub add_error : CopyAction → Error → Shared → Shared
add_error a e s = record s {
  errors = s.errors ++ (record { path = a.file.path; op = codes "copy"; error = e } ∷ []);
}

-- The step of a worker. One that waits at a channel that is empty and open stays where it is.
unfoldable pub advance : Options → Option Error → Shared → Worker → Shared × Worker
advance opts outcome s waiting = elim s.queue [
  | [] ↦ (s, if s.closed then returned else waiting)
  | a ∷ queue ↦ (record s { queue = queue }, received a)
]
advance opts outcome s (received a) = (s, if s.canceled then returned else copying a)
advance opts outcome s (copying a) =
    if opts.dry_run then (count a s, counting a) else elim outcome [
      | none ↦ (count a s, counting a)
      | some e ↦
          let s' = add_error a e s in (s', if should_stop opts s'.errors then stopping else waiting)
    ]
advance opts outcome s (counting a) =
    (record s { bytes_transferred = s.bytes_transferred +ℤ a.file.size }, waiting)
advance opts outcome s stopping = (record s { canceled = true }, returned)
advance opts outcome s returned = (s, returned)

-- The worker of a number; there is none of a larger one.
unfoldable pub advance_at : Options → Option Error → ℕ → Shared → List Worker → Pool
unfolding advance
advance_at opts outcome i s [] = record { shared = s; workers = [] }
advance_at opts outcome zero s (w ∷ ws) =
    let (s', w') = advance opts outcome s w in record { shared = s'; workers = w' ∷ ws }
advance_at opts outcome (suc i) s (w ∷ ws) =
    let p = advance_at opts outcome i s ws in record { shared = p.shared; workers = w ∷ p.workers }

-- The sender: the channel has room for all actions, and is closed behind the last.
unfoldable pub send_next : Shared → Shared
send_next s = elim s.pending [
  | [] ↦ record s { closed = true }
  | a ∷ pending ↦ record s { pending = pending; queue = s.queue ++ (a ∷ []) }
]

-- `break sendLoop`, which is open to the sender when the context is done.
unfoldable pub break_loop : Shared → Shared
break_loop s = if s.canceled then record s { pending = [] } else s

unfoldable pub step : Options → Event → Pool → Pool
unfolding advance_at send_next break_loop
step opts send p = record p { shared = send_next p.shared }
step opts break_send p = record p { shared = break_loop p.shared }
step opts cancel p = record p { shared = record p.shared { canceled = true } }
step opts (work i outcome) p = advance_at opts outcome i p.shared p.workers

unfoldable pub run : Options → List Event → Pool → Pool
unfolding step
run opts [] p = p
run opts (e ∷ es) p = run opts es (step opts e p)

-- `opts.Concurrency`, with its default.
unfoldable pub concurrency_of : Options → ℕ
concurrency_of opts = elim opts.concurrency [
  | negsuc n ↦ 4
  | pos n ↦ elim n [ zero ↦ 4 | suc m ↦ suc m ]
]

unfoldable pub idle_workers : ℕ → List Worker
idle_workers zero = []
idle_workers (suc n) = waiting ∷ idle_workers n

unfoldable pub start : Options → List CopyAction → Pool
unfolding concurrency_of idle_workers
start opts actions = record {
  shared = record {
    pending = actions;
    queue = [];
    closed = false;
    canceled = false;
    errors = [];
    copied = 0;
    updated = 0;
    bytes_transferred = pos 0;
  };
  workers = idle_workers (concurrency_of opts);
}

-- `wg.Wait` returns.
abbrev pub AllReturned : List Worker → Type 0
AllReturned [] = Unit
AllReturned (returned ∷ ws) = AllReturned ws
AllReturned (_ ∷ ws) = ⊥
