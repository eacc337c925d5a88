-- ===== src/Compress/Closings.antt =====
-- However a wrapper is used, what is below it is closed once.
use mathlib.Core.Path.{subst}
use omnistorage.Base.{
  ℕ, suc, ◌+◌, Bytes, ◌≡◌, refl, sym, ap, ◌∙◌, arith, Bool, true, false, List, [], ◌∷◌, panic,
  Result-cases, Bool-cases, if◌then◌else◌,
}
use omnistorage.Base.Action.{Action}
use omnistorage.Compress.Wrapper.{Wrapped, unless_closed, close_both}

-- Calls of a writer.
pub data Call : Type 0 where
  write : Bytes → Call
  flush close : Call

-- A codec that does not close what is below it, and whose close returns; `closings` counts how often
-- what is below has been closed.
pub record LeavesOpen {W C S : Type 0} (writes : C → Bytes → Action W ℕ)
    (flushes closes : C → Action W (Unit {0})) (below : S → Action W (Unit {0}))
    (closings : S → W → ℕ) : Type 0 where
  pub by_write : (c : C) (p : Bytes) (s : S) (w : W) → closings s (writes c p w).1 ≡ closings s w
  pub by_flush : (c : C) (s : S) (w : W) → closings s (flushes c w).1 ≡ closings s w
  pub by_close : (c : C) (s : S) (w : W) → closings s (closes c w).1 ≡ closings s w
  pub close_returns : (c : C) (w : W) → ¬ ((closes c w).0 ≡ panic)
  pub by_below : (s : S) (w : W) → closings s (below s w).1 ≡ suc (closings s w)

-- `1` for a wrapper that is closed.
abbrev pub closed_once : {C S : Type 0} → Wrapped C S → ℕ
closed_once x = if x.closed then 1 else 0

unfoldable pub has_close : List Call → Bool
has_close [] = false
has_close (close ∷ calls) = true
has_close (write p ∷ calls) = has_close calls
has_close (flush ∷ calls) = has_close calls

module _ {W C S : Type 0} {writes : C → Bytes → Action W ℕ}
    {flushes closes : C → Action W (Unit {0})} {below : S → Action W (Unit {0})}
    {closings : S → W → ℕ} (O : LeavesOpen writes flushes closes below closings) where
  -- What a call leaves, whatever it answers.
  abbrev pub after : Call → W × Wrapped C S → W × Wrapped C S
  after (write p) t = (unless_closed (λ c. writes c p) t).1
  after flush t = (unless_closed flushes t).1
  after close t = (close_both closes below t).1

  unfoldable pub after_all : List Call → W × Wrapped C S → W × Wrapped C S
  after_all [] t = t
  after_all (call ∷ calls) t = after_all calls (after call t)

  abbrev pub Counts : ℕ → S → W × Wrapped C S → Type 0
  Counts n s (w, x) = (closings s w ≡ n + closed_once x) × (x.closer ≡ s)

  close-Counts :
      (n : ℕ) (s : S) (w : W) (x : Wrapped C S)
      → Counts n s (w, x)
      → Counts n s (after close (w, x)) × ((after close (w, x)).1.closed ≡ true)
  close-Counts n s w x h =
      let w1 : W = (closes x.codec w).1 in
      let e1 = O.by_close x.codec s w in
      let e2 : closings s (below x.closer w1).1 ≡ suc (closings s w1) =
        subst (λ (t : S). closings s (below t w1).1 ≡ suc (closings s w1)) (sym h.1)
          (O.by_below s w1) in
      let returns = O.close_returns x.codec w in
      ground (arith, e1, e2, returns, Result-cases (closes x.codec w).0, Bool-cases x.closed)

  after-Counts :
      (call : Call) (n : ℕ) (s : S) (t : W × Wrapped C S) → Counts n s t → Counts n s (after call t)
  after-Counts (write p) n s (w, x) h =
      let e = O.by_write x.codec p s w in ground (arith, e, Bool-cases x.closed)
  after-Counts flush n s (w, x) h =
      let e = O.by_flush x.codec s w in ground (arith, e, Bool-cases x.closed)
  after-Counts close n s (w, x) h = (close-Counts n s w x h).0

  -- Once closed, a wrapper changes nothing any more.
  closed-after :
      (call : Call) (w : W) (x : Wrapped C S) → x.closed ≡ true → after call (w, x) ≡ (w, x)
  closed-after (write p) w x h = ground (arith, h)
  closed-after flush w x h = ground (arith, h)
  closed-after close w x h = ground (arith, h)

  closed-after_all :
      (calls : List Call) (w : W) (x : Wrapped C S)
      → x.closed ≡ true
      → after_all calls (w, x) ≡ (w, x)
  unfolding after_all
  closed-after_all [] w x h = refl
  closed-after_all (call ∷ calls) w x h =
      ap (after_all calls) (closed-after call w x h) ∙ closed-after_all calls w x h

  open-after :
      (call : Call) (w : W) (x : Wrapped C S)
      → x.closed ≡ false
      → (after call (w, x)).1.closed ≡ has_close (call ∷ [])
  unfolding has_close
  open-after (write p) w x h = ground (arith, h)
  open-after flush w x h = ground (arith, h)
  open-after close w x h =
      let returns = O.close_returns x.codec w in
      ground (arith, h, returns, Result-cases (closes x.codec w).0)

  pub closes_once :
      (calls : List Call) (n : ℕ) (s : S) (w : W) (x : Wrapped C S)
      → x.closed ≡ false
      → Counts n s (w, x)
      → Counts n s (after_all calls (w, x)) × ((after_all calls (w, x)).1.closed ≡ has_close calls)
  unfolding after_all has_close
  closes_once [] n s w x h c = (c, h)
  closes_once (close ∷ calls) n s w x h c =
      let t = after close (w, x) in
      let (kept, shut) = close-Counts n s w x c in
      let still = closed-after_all calls t.0 t.1 shut in
      (subst (Counts n s) (sym still) kept, ap (λ (u : W × Wrapped C S). u.1.closed) still ∙ shut)
  closes_once (write p ∷ calls) n s w x h c =
      let t = after (write p) (w, x) in
      closes_once calls n s t.0 t.1 (open-after (write p) w x h)
        (after-Counts (write p) n s (w, x) c)
  closes_once (flush ∷ calls) n s w x h c =
      let t = after flush (w, x) in
      closes_once calls n s t.0 t.1 (open-after flush w x h) (after-Counts flush n s (w, x) c)
