-- ===== src/Multi.antt =====
-- multi/writer.go: one writer that writes to many backends. A method holds the lock of its writer,
-- so it is one step.
pub mod Laws
pub mod Openings
pub mod Build
use omnistorage.Base.{
  ℕ, zero, suc, ◌/◌, Bytes, Bool, true, false, not, ◌&&◌, List, [], ◌∷◌, ◌++◌, codes, Option, none,
  some, Error, message, writer_closed, Result, ok, err, panic, if◌then◌else◌, length, ltb, leb,
}
use omnistorage.Base.Action.{Action, ◌>>=◌}
use omnistorage.Options.{WriterOption}

pub data WriteMode : Type 0 where
  write_all write_best_effort write_quorum : WriteMode

-- A writer of one backend, and what opens it: `NewWriter` of that backend.
pub record Sink (W : Type 0) : Type 0 where
  pub write : Bytes → Action W ℕ
  pub close : Action W (Unit {0})

abbrev pub Opener : Type 0 → Type 0
Opener W = Bytes → List WriterOption → Action W (Sink W)

-- A result, the errors of a `*MultiError`, or another error.
pub data Attempt (A : Type 0) : Type 0 where
  done : A → Attempt A
  failed : List Error → Attempt A
  refused : Error → Attempt A
  panicked : Attempt A

pub record MultiWriter (W : Type 0) : Type 0 where
  pub writers : List (Sink W)
  pub mode : WriteMode
  pub errs : List Error
  pub closed : Bool

-- How many writes succeeded, the errors of the others, and the greatest number of bytes written.
pub record Tally : Type 0 where
  pub successes : ℕ
  pub errors : List Error
  pub max_written : ℕ

abbrev pub is_write_all : WriteMode → Bool
is_write_all write_all = true
is_write_all _ = false

abbrev pub is_quorum : WriteMode → Bool
is_quorum write_quorum = true
is_quorum _ = false

abbrev pub maximum : ℕ → ℕ → ℕ
maximum a b = if ltb b a then a else b

abbrev pub quorum_missed : Error
quorum_missed = message "failed to achieve write quorum" []

-- What `Write` makes of the tally.
unfoldable pub judge : WriteMode → ℕ → Tally → Attempt ℕ
judge mode total tally =
    if is_quorum mode && leb tally.successes (total / 2)
    then failed (tally.errors ++ (message "write quorum not achieved" [] ∷ []))
    else if leb tally.successes 0
    then failed tally.errors
    else done tally.max_written

module _ {W : Type 0} where
  -- Closes all; the errors of those that fail.
  unfoldable pub close_all : List (Sink W) → W → Attempt (List Error) × W
  close_all [] s = (done [], s)
  close_all (sink ∷ sinks) s =
      let (r, s') = sink.close s in
      let (rest, t) = close_all sinks s' in
      elim r [
        | ok _ ↦ (rest, t)
        | err e ↦ elim rest [
          | done errors ↦ (done (e ∷ errors), t)
          | failed errors ↦ (failed errors, t)
          | refused f ↦ (refused f, t)
          | panicked ↦ (panicked, t)
        ]
        | panic ↦ (panicked, s')
      ]

  abbrev after_closing : List (Sink W) → List Error → W → Attempt (List (Sink W) × List Error) × W
  after_closing sinks errors s =
      let (r, t) = close_all sinks s in elim r [ panicked ↦ (panicked, t) | _ ↦ (failed errors, t) ]

  -- The loop of `NewWriter`, with the writers and the errors so far.
  unfoldable pub open_all :
      WriteMode
      → Bytes
      → List WriterOption
      → List (Opener W)
      → List (Sink W)
      → List Error
      → W
      → Attempt (List (Sink W) × List Error) × W
  open_all mode path opts [] sinks errors s = (done (sinks, errors), s)
  open_all mode path opts (opener ∷ openers) sinks errors s =
      let (r, s') = opener path opts s in
      elim r [
        | ok sink ↦ open_all mode path opts openers (sinks ++ (sink ∷ [])) errors s'
        | err e ↦ elim (is_write_all mode) [
          | true ↦ after_closing sinks (errors ++ (e ∷ [])) s'
          | false ↦ open_all mode path opts openers sinks (errors ++ (e ∷ [])) s'
        ]
        | panic ↦ (panicked, s')
      ]

  -- What `NewWriter` does behind its loop, with `total` backends.
  unfoldable pub check_opened :
      WriteMode → ℕ → Attempt (List (Sink W) × List Error) × W → Attempt (MultiWriter W) × W
  check_opened mode total (done (sinks, errors), t) =
      let (closing, u) = after_closing sinks (errors ++ (quorum_missed ∷ [])) t in
      if is_quorum mode && leb (length sinks) (total / 2)
      then (elim closing [ panicked ↦ panicked | _ ↦ failed (errors ++ (quorum_missed ∷ [])) ], u)
      else elim sinks [
        | [] ↦ (failed errors, t)
        | sink ∷ more ↦
            (done (record { writers = sink ∷ more; mode = mode; errs = errors; closed = false }), t)
      ]
  check_opened mode total (failed errors, t) = (failed errors, t)
  check_opened mode total (refused e, t) = (refused e, t)
  check_opened mode total (panicked, t) = (panicked, t)

  unfoldable pub new_multi_writer :
      WriteMode → List (Opener W) → Bytes → List WriterOption → W → Attempt (MultiWriter W) × W
  unfolding check_opened open_all
  new_multi_writer mode backends path opts s =
      check_opened mode (length backends) (open_all mode path opts backends [] [] s)

  -- The loop of `Write`.
  unfoldable pub write_loop : WriteMode → Bytes → List (Sink W) → Tally → W → Attempt Tally × W
  write_loop mode p [] tally s = (done tally, s)
  write_loop mode p (sink ∷ sinks) tally s =
      let (r, s') = sink.write p s in
      elim r [
        | ok n ↦
            write_loop mode p sinks
              (record tally {
                successes = suc tally.successes;
                max_written = maximum n tally.max_written;
              })
              s'
        | err e ↦ elim (is_write_all mode) [
          | true ↦ (failed (tally.errors ++ (e ∷ [])), s')
          | false ↦ write_loop mode p sinks (record tally { errors = tally.errors ++ (e ∷ []) }) s'
        ]
        | panic ↦ (panicked, s')
      ]

  -- `multiWriteCloser.Write`
  unfoldable pub multi_write : Bytes → MultiWriter W → W → Attempt ℕ × W
  multi_write p m s =
      let (r, t) =
        write_loop m.mode p m.writers (record { successes = 0; errors = []; max_written = 0 }) s in
      if m.closed then (refused writer_closed, s) else elim r [
        | done tally ↦ (judge m.mode (length m.writers) tally, t)
        | failed errors ↦ (failed errors, t)
        | refused e ↦ (refused e, t)
        | panicked ↦ (panicked, t)
      ]

  -- `multiWriteCloser.Close`
  unfoldable pub multi_close : MultiWriter W → W → Attempt (Unit {0}) × (MultiWriter W × W)
  multi_close m s =
      let (r, t) = close_all m.writers s in
      if m.closed then (done tt, (m, s)) else elim r [
        | done [] ↦ (done tt, (record m { closed = true }, t))
        | done (e ∷ errors) ↦ (failed (e ∷ errors), (record m { closed = true }, t))
        | failed errors ↦ (failed errors, (record m { closed = true }, t))
        | refused e ↦ (refused e, (record m { closed = true }, t))
        | panicked ↦ (panicked, (record m { closed = true }, t))
      ]
