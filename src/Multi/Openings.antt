-- ===== src/Multi/Openings.antt =====
-- Which writers `NewWriter` of multi/writer.go leaves open.
use omnistorage.Base.{
  ℕ, suc, ◌+◌, ◌-◌, Bytes, ◌≡◌, refl, ◌∙◌, ◌++◌, List, [], ◌∷◌, Error, ok, panic, arith, length,
  inl, inr, Result-cases, Bool-cases, All, All-append, length-append, ◌/◌, leb, ◌&&◌,
}
use omnistorage.Options.{WriterOption}
use omnistorage.Multi.{
  WriteMode, Sink, Opener, Attempt, done, failed, refused, panicked, MultiWriter, is_write_all,
  is_quorum, close_all, after_closing, open_all, quorum_missed, check_opened, new_multi_writer,
}
use omnistorage.Base.Counting.{one_if_ok, one_if_ok-ok, one_if_ok-err}

module _ {W : Type 0} (opened : W → ℕ) where
  -- Closing a writer returns, and leaves one less open, whatever it answers.
  pub record ClosesOne (sink : Sink W) : Type 0 where
    pub one_less : (s : W) → opened (sink.close s).1 ≡ opened s - 1
    pub returns : (s : W) → ¬ ((sink.close s).0 ≡ panic)

  -- A backend whose `NewWriter` returns, and leaves one more open if it gives a writer.
  pub record OpensOne (opener : Opener W) : Type 0 where
    pub one_more :
        (path : Bytes) (opts : List WriterOption) (s : W)
        → opened (opener path opts s).1 ≡ one_if_ok (opener path opts s).0 (opened s)
    pub returns :
        (path : Bytes) (opts : List WriterOption) (s : W) → ¬ ((opener path opts s).0 ≡ panic)
    pub gives :
        (path : Bytes) (opts : List WriterOption) (s : W) (sink : Sink W)
        → (opener path opts s).0 ≡ ok sink
        → ClosesOne sink

  close_all-done :
      (sinks : List (Sink W)) (s : W)
      → All ClosesOne sinks
      → (opened (close_all sinks s).1 ≡ opened s - length sinks)
        × (errors : List Error) × ((close_all sinks s).0 ≡ done errors)
  unfolding close_all
  close_all-done [] s h = (omega arith, [], refl)
  close_all-done (sink ∷ sinks) s (c, h) =
      let s' : W = (sink.close s).1 in
      let less : opened s' ≡ opened s - 1 = c.one_less s in
      let (rest, errors, e) = close_all-done sinks s' h in
      elim (Result-cases (sink.close s).0) [
        | inl (a, k) ↦ (ground (arith, k, rest, less), errors, ground (arith, k, e))
        | inr (inl (x, k)) ↦ (ground (arith, k, e, rest, less), x ∷ errors, ground (arith, k, e))
        | inr (inr k) ↦ absurd (c.returns s k)
      ]

  -- What an attempt to open writers leaves, where `before` were open before: those that it gives.
  unfoldable Kept : ℕ → Attempt (List (Sink W) × List Error) × W → Type 0
  Kept before (done (sinks, errors), t) = (opened t ≡ before + length sinks) × All ClosesOne sinks
  Kept before (failed errors, t) = opened t ≡ before
  Kept before (refused e, t) = ⊥
  Kept before (panicked, t) = ⊥

  after_closing-Kept :
      (before : ℕ) (sinks : List (Sink W)) (errors : List Error) (s : W)
      → opened s ≡ before + length sinks
      → All ClosesOne sinks
      → (opened (after_closing sinks errors s).1 ≡ before)
        × ((after_closing sinks errors s).0 ≡ failed errors)
  after_closing-Kept before sinks errors s h k =
      let (rest, closing, e) = close_all-done sinks s k in
      (ground (arith, e, rest, h), ground (arith, e))

  failed-Kept :
      (before : ℕ) (t : Attempt (List (Sink W) × List Error) × W) (errors : List Error)
      → t.0 ≡ failed errors
      → opened t.1 ≡ before
      → Kept before t
  unfolding Kept
  failed-Kept before (done a, t) errors e h = cc
  failed-Kept before (failed f, t) errors e h = h
  failed-Kept before (refused f, t) errors e h = cc
  failed-Kept before (panicked, t) errors e h = cc

  closed_again-Kept :
      (before : ℕ) (sinks : List (Sink W)) (errors : List Error) (s : W)
      → opened s ≡ before + length sinks
      → All ClosesOne sinks
      → Kept before (after_closing sinks errors s)
  closed_again-Kept before sinks errors s h k =
      let (left, e) = after_closing-Kept before sinks errors s h k in
      failed-Kept before (after_closing sinks errors s) errors e left

  open_all-Kept :
      (mode : WriteMode) (path : Bytes) (opts : List WriterOption) (openers : List (Opener W))
      (sinks : List (Sink W)) (errors : List Error) (s : W) (before : ℕ)
      → All OpensOne openers
      → All ClosesOne sinks
      → opened s ≡ before + length sinks
      → Kept before (open_all mode path opts openers sinks errors s)
  unfolding open_all Kept
  open_all-Kept mode path opts [] sinks errors s before o c h = (h, c)
  open_all-Kept mode path opts (opener ∷ openers) sinks errors s before (o, os) c h =
      let s' : W = (opener path opts s).1 in
      let at = o.one_more path opts s in
      elim (Result-cases (opener path opts s).0) [
        | inl (sink, e) ↦
            let more : opened s' ≡ suc (opened s) = one_if_ok-ok e at in
            rw e (
              open_all-Kept mode path opts openers (sinks ++ (sink ∷ [])) errors s' before os
                (All-append ClosesOne sinks (sink ∷ []) c (o.gives path opts s sink e, tt))
                (omega (arith, more, h, length-append sinks (sink ∷ []))))
        | inr (inl (x, e)) ↦
            let same : opened s' ≡ opened s = one_if_ok-err e at in
            elim (Bool-cases (is_write_all mode)) [
              | inl k ↦
                  rw (e, k) (closed_again-Kept before sinks (errors ++ (x ∷ [])) s' (same ∙ h) c)
              | inr k ↦
                  rw (e, k)
                    (open_all-Kept mode path opts openers sinks (errors ++ (x ∷ [])) s' before os c
                      (same ∙ h))
            ]
        | inr (inr e) ↦ absurd (o.returns path opts s e)
      ]

  -- What an attempt leaves open, where `before` were open before: the writers that it gives, if it
  -- gives a multi-writer, and otherwise nothing.
  unfoldable pub Left : ℕ → Attempt (MultiWriter W) × W → Type 0
  Left before (done m, t) = opened t ≡ before + length m.writers
  Left before (failed errors, t) = opened t ≡ before
  Left before (refused e, t) = ⊥
  Left before (panicked, t) = ⊥

  check_opened-Left :
      (mode : WriteMode) (total before : ℕ) (t : Attempt (List (Sink W) × List Error) × W)
      → Kept before t
      → Left before (check_opened mode total t)
  unfolding check_opened Kept Left
  check_opened-Left mode total before (failed errors, t) h = h
  check_opened-Left mode total before (refused e, t) h = h
  check_opened-Left mode total before (panicked, t) h = h
  check_opened-Left mode total before (done ([], errors), t) (h, c) =
      elim (Bool-cases (is_quorum mode && leb 0 (total / 2))) [
        | inl k ↦
            let (left, e) = after_closing-Kept before [] (errors ++ (quorum_missed ∷ [])) t h tt in
            rw (k, e) left
        | inr k ↦ rw k (omega (arith, h))
      ]
  check_opened-Left mode total before (done (sink ∷ sinks, errors), t) (h, c) =
      elim (Bool-cases (is_quorum mode && leb (length (sink ∷ sinks)) (total / 2))) [
        | inl k ↦
            let (left, e) =
              after_closing-Kept before (sink ∷ sinks) (errors ++ (quorum_missed ∷ [])) t h c in
            rw (k, e) left
        | inr k ↦ rw k h
      ]

  -- With backends whose `NewWriter` returns, and whose writers can be closed: `NewWriter` of the
  -- multi-writer returns, in each mode; if it gives a writer, then as many more are open as that one
  -- writes to, and if it fails, then as many as before, since what it opened is closed.
  pub new_multi_writer-Left :
      (mode : WriteMode) (backends : List (Opener W)) (path : Bytes) (opts : List WriterOption)
      (s : W)
      → All OpensOne backends
      → Left (opened s) (new_multi_writer mode backends path opts s)
  unfolding new_multi_writer Left Kept
  new_multi_writer-Left mode backends path opts s os =
      check_opened-Left mode (length backends) (opened s) (open_all mode path opts backends [] [] s)
        (open_all-Kept mode path opts backends [] [] s (opened s) os tt (omega arith))
