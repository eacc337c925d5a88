-- ===== src/Multi/Laws.antt =====
-- What a write to many backends promises in each mode.
use omnistorage.Base.{
  ℕ, suc, ◌+◌, ◌*◌, ◌<◌, Bytes, ◌≡◌, refl, sym, ap, ◌∙◌, ◌++◌, true, false, List, [], ◌∷◌, Error,
  ok, err, arith, length, inl, inr, Result-cases, Bool-cases,
}
use omnistorage.Multi.{
  WriteMode, Sink, Attempt, done, failed, refused, panicked, MultiWriter, Tally, is_write_all,
  is_quorum, maximum, write_loop, judge, multi_write,
}

abbrev one_more : ℕ → Tally → Tally
one_more n tally = record tally {
  successes = suc tally.successes;
  max_written = maximum n tally.max_written;
}

abbrev one_error : Error → Tally → Tally
one_error e tally = record tally { errors = tally.errors ++ (e ∷ []) }

abbrev no_tally : Tally
no_tally = record { successes = 0; errors = []; max_written = 0 }

module _ {W : Type 0} where
  -- Each of the writers is given the bytes in turn; so many of them take them, and `t` is the state
  -- that this leaves.
  pub data Offered (p : Bytes) : List (Sink W) → W → ℕ → W → Type 0 where
    to_none : {s : W} → Offered p [] s 0 s
    taken :
        {sink : Sink W} {sinks : List (Sink W)} {s t : W} {k : ℕ} (n : ℕ)
        → (sink.write p s).0 ≡ ok n
        → Offered p sinks (sink.write p s).1 k t
        → Offered p (sink ∷ sinks) s (suc k) t
    not_taken :
        {sink : Sink W} {sinks : List (Sink W)} {s t : W} {k : ℕ} (e : Error)
        → (sink.write p s).0 ≡ err e
        → Offered p sinks (sink.write p s).1 k t
        → Offered p (sink ∷ sinks) s k t

  write_loop_taken :
      (mode : WriteMode) (p : Bytes) (sink : Sink W) (sinks : List (Sink W)) (tally : Tally) (s : W)
      (n : ℕ)
      → (sink.write p s).0 ≡ ok n
      → write_loop mode p (sink ∷ sinks) tally s
        ≡ write_loop mode p sinks (one_more n tally) (sink.write p s).1
  unfolding write_loop
  write_loop_taken mode p sink sinks tally s n e = rw e refl

  write_loop_not_taken :
      (mode : WriteMode) (p : Bytes) (sink : Sink W) (sinks : List (Sink W)) (tally : Tally) (s : W)
      (e : Error)
      → (sink.write p s).0 ≡ err e
      → is_write_all mode ≡ false
      → write_loop mode p (sink ∷ sinks) tally s
        ≡ write_loop mode p sinks (one_error e tally) (sink.write p s).1
  unfolding write_loop
  write_loop_not_taken mode p sink sinks tally s e k h = rw (k, h) refl

  write_loop-done :
      (mode : WriteMode) (p : Bytes) (sinks : List (Sink W)) (tally : Tally) (s : W) (total : Tally)
      → (write_loop mode p sinks tally s).0 ≡ done total
      → (k : ℕ) × Offered p sinks s k (write_loop mode p sinks tally s).1
        × (total.successes ≡ tally.successes + k)
        × (is_write_all mode ≡ true → k ≡ length sinks)
  write_loop-done mode p [] tally s total h =
      unfold write_loop in (0, to_none, ground arith, λ _. refl)
  write_loop-done mode p (sink ∷ sinks) tally s total h = elim (Result-cases (sink.write p s).0) [
    | inl (n, e) ↦
        let step = write_loop_taken mode p sink sinks tally s n e in
        let (k, offered, count, all) =
          write_loop-done mode p sinks (one_more n tally) (sink.write p s).1 total
            (sym (ap (λ t. t.0) step) ∙ h) in
        (suc k, rw step (taken n e offered), omega (arith, count), λ w. ap suc (all w))
    | inr (inl (f, e)) ↦ elim (Bool-cases (is_write_all mode)) [
      | inl w ↦ absurd (unfold write_loop in ground arith)
      | inr w ↦
          let step = write_loop_not_taken mode p sink sinks tally s f e w in
          let (k, offered, count, all) =
            write_loop-done mode p sinks (one_error f tally) (sink.write p s).1 total
              (sym (ap (λ t. t.0) step) ∙ h) in
          (k, rw step (not_taken f e offered), count, λ v. absurd (ground arith))
    ]
    | inr (inr e) ↦ absurd (unfold write_loop in ground arith)
  ]

  multi_write_cases :
      (p : Bytes) (m : MultiWriter W) (s : W) (n : ℕ) (r : Attempt Tally)
      → (write_loop m.mode p m.writers no_tally s).0 ≡ r
      → (multi_write p m s).0 ≡ done n
      → (total : Tally) × (r ≡ done total)
        × (m.closed ≡ false)
        × ((multi_write p m s).1 ≡ (write_loop m.mode p m.writers no_tally s).1)
        × (0 < total.successes)
        × (is_quorum m.mode ≡ true → length m.writers < 2 * total.successes)
  unfolding multi_write judge
  multi_write_cases p m s n (done total) e h =
      (total, refl, ground arith, ground arith, ground arith, ground arith)
  multi_write_cases p m s n (failed errors) e h = absurd (ground arith)
  multi_write_cases p m s n (refused f) e h = absurd (ground arith)
  multi_write_cases p m s n panicked e h = absurd (ground arith)

  -- A `Write` that reports success was made on an open writer and has offered the bytes to each of
  -- its writers in turn; at least one took them, with `WriteAll` all of them did, and with
  -- `WriteQuorum` more than half.
  pub multi_write_promise :
      (p : Bytes) (m : MultiWriter W) (s : W) (n : ℕ)
      → (multi_write p m s).0 ≡ done n
      → (m.closed ≡ false)
        × (k : ℕ) × Offered p m.writers s k (multi_write p m s).1
        × (0 < k)
        × (is_write_all m.mode ≡ true → k ≡ length m.writers)
        × (is_quorum m.mode ≡ true → length m.writers < 2 * k)
  multi_write_promise p m s n h =
      let (total, e, unclosed, left, some_took, quorum) = multi_write_cases p m s n _ refl h in
      let (k, offered, count, all) = write_loop-done m.mode p m.writers no_tally s total e in
      (
        unclosed,
        k,
        rw left offered,
        omega (arith, count, some_took),
        all,
        λ q. omega (arith, count, quorum q),
      )
