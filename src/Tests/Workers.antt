-- ===== src/Tests/Workers.antt =====
-- Two workers in turn, and the theorems on the worker pool.
use omnistorage.Base.{
  ℕ, ◌+◌, ◌≤◌, Bytes, nat_eq, ◌≡◌, refl, Bool, true, false, List, [], ◌∷◌, codes, none, some,
  permission_denied, length,
}
use omnistorage.Base.Int.{pos, ◌+ℤ◌}
use omnistorage.Sync.Options.{Options, default_options}
use omnistorage.Sync.Compare.{CopyAction, total_bytes}
use omnistorage.Sync.Run.{should_stop}
use omnistorage.Sync.Workers.{
  Pool, Event, send, work, advance, advance_at, send_next, break_loop, step, run, concurrency_of,
  idle_workers, start, AllReturned,
}
use omnistorage.Sync.Workers.Total.{total}
use omnistorage.Sync.Workers.Balance.{fresh, renewed}
use omnistorage.Sync.Workers.Bounds.{pool_errors_bounded}
use omnistorage.Sync.Workers.Ends.{pool_complete}
use omnistorage.Sync.Workers.Progress.{pool_ends}

abbrev pair : Options
pair = record default_options { concurrency = pos 2; max_errors = pos 1 }

abbrev action : Bytes → ℕ → Bool → CopyAction
action path size is_update = record {
  file = record { path = path; size = pos size; mod_time = 0; is_dir = false; hash = [] };
  is_update = is_update;
}

abbrev two_actions : List CopyAction
two_actions = action (codes "a") 3 false ∷ action (codes "b") 4 true ∷ []

-- Both are received before one is copied.
abbrev in_turn : List Event
in_turn =
    send
    ∷ send
    ∷ work 0 none
    ∷ work 1 none
    ∷ work 1 none
    ∷ work 0 none
    ∷ send
    ∷ work 0 none
    ∷ work 1 none
    ∷ work 1 none
    ∷ work 0 none
    ∷ work 0 none
    ∷ work 1 none
    ∷ []

abbrev both_fail : List Event
both_fail =
    send
    ∷ send
    ∷ work 0 none
    ∷ work 1 none
    ∷ work 1 none
    ∷ work 0 none
    ∷ work 0 (some permission_denied)
    ∷ work 1 (some permission_denied)
    ∷ []

-- What the runs below compute through.
ran : List Event → Pool
unfolding run step start advance_at advance send_next break_loop concurrency_of idle_workers
    should_stop total total_bytes ◌+ℤ◌
ran es = run pair es (start pair two_actions)

-- With a limit of one error and two workers there may be two.
overshoot : length (ran both_fail).shared.errors ≡ 2
unfolding ran
overshoot = refl

pool_errors_bounded_example :
    length (run pair both_fail (start pair two_actions)).shared.errors ≤ 0 + concurrency_of pair
pool_errors_bounded_example = pool_errors_bounded pair 0 two_actions both_fail refl

all_back : AllReturned (run pair in_turn (start pair two_actions)).workers
unfolding ran
all_back = tt

not_canceled : (run pair in_turn (start pair two_actions)).shared.canceled ≡ false
unfolding ran
not_canceled = refl

bytes_counted : (run pair in_turn (start pair two_actions)).shared.bytes_transferred ≡ pos 7
unfolding ran
bytes_counted = refl

pool_complete_example :
    let s = (run pair in_turn (start pair two_actions)).shared in
    (s.copied + s.updated + length s.errors ≡ 2)
    × (s.errors ≡ []
        → (s.copied ≡ total fresh two_actions)
          × (s.updated ≡ total renewed two_actions)
          × (s.bytes_transferred ≡ total_bytes two_actions (pos 0)))
pool_complete_example = pool_complete pair two_actions in_turn all_back not_canceled

pool_ends_example : (es : List Event) × AllReturned (run pair es (start pair two_actions)).workers
pool_ends_example = pool_ends pair (start pair two_actions)
