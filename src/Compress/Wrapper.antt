-- ===== src/Compress/Wrapper.antt =====
-- What the four wrappers have in common: nothing reaches the codec of one that is closed, and a close
-- goes to the codec first.
use omnistorage.Base.{Bool, true, closed_pipe, ok, err, panic, if◌then◌else◌}
use omnistorage.Base.Action.{Action}

-- `closer` is what the codec writes to or reads from.
pub record Wrapped (C S : Type 0) : Type 0 where
  pub codec : C
  pub closer : S
  pub closed : Bool

module _ {W C S : Type 0} where
  abbrev pub unless_closed : {A : Type 0} → (C → Action W A) → Action (W × Wrapped C S) A
  unless_closed op (w, x) =
      if x.closed then (err closed_pipe, (w, x)) else (let (r, w') = op x.codec w in (r, (w', x)))

  -- The error of the codec goes before that of what is below it, which is closed all the same.
  abbrev pub close_both :
      (C → Action W (Unit {0})) → (S → Action W (Unit {0})) → Action (W × Wrapped C S) (Unit {0})
  close_both close_codec close_closer (w, x) =
      if x.closed
      then (ok tt, (w, x))
      else (let x' : Wrapped C S = record x { closed = true } in
          let (r, w1) = close_codec x.codec w in
          let (q, w2) = close_closer x.closer w1 in
          elim r [ ok _ ↦ (q, (w2, x')) | err e ↦ (err e, (w2, x')) | panic ↦ (panic, (w1, x')) ])
