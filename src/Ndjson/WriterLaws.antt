-- ===== src/Ndjson/WriterLaws.antt =====
-- Nothing that a writer has taken is lost without an error.
use mathlib.Core.List
use omnistorage.Base.{
  ℕ, ◌-◌, Bytes, ◌≡◌, refl, sym, ◌∙◌, false, List, [], ◌∷◌, ◌++◌, Option, none, some, Error, ok,
  length, take, drop, take-append-drop, leb, arith, Result-cases, Bool-cases, inl, inr,
}
use omnistorage.Base.Action.{Action, ◌>>◌, pure}
use omnistorage.Ndjson.Buffer.{
  Sink, Buffer, empty_buffer, emit, flush_buffer, write_rest, write_buffer,
}
use omnistorage.Ndjson.Writer.{Writer, new_writer, newline, write, close}

-- `log` is what has arrived: all that `Write` takes, and a `Close` changes nothing of it.
pub record IsHonest {W : Type 0} (D : Sink W) (log : W → Bytes) : Type 0 where
  pub put_log : (p : Bytes) (w : W) → (D.put p w).0 ≡ ok tt → log (D.put p w).1 ≡ log w ++ p
  pub close_log : (w : W) → log (D.close w).1 ≡ log w

module _ {W : Type 0} (D : Sink W) (log : W → Bytes) (h : IsHonest D log) where
  -- What has arrived and what waits.
  abbrev taken : W × Buffer → Bytes
  taken (w, b) = log w ++ b.waiting

  emit_lem :
      (p : Bytes) (b old : Buffer) (w : W)
      → (emit D p b (w, old)).0 ≡ ok tt
      → ((emit D p b (w, old)).1.1 ≡ b) × (log (emit D p b (w, old)).1.0 ≡ log w ++ p)
  unfolding emit
  emit_lem p b old w e = (ground arith, ground (arith, h.put_log p w))

  write_rest_lem :
      (size : ℕ) (p : Bytes) (w : W)
      → (write_rest D size p (w, empty_buffer)).0 ≡ ok tt
      → taken (write_rest D size p (w, empty_buffer)).1 ≡ log w ++ p
  unfolding write_rest
  write_rest_lem size p w e =
      ground (arith, emit_lem p empty_buffer empty_buffer w, List.append-nil (log w ++ p))

  flush_parts :
      (waiting : Bytes) (failure : Option Error) (w : W)
      → let t = flush_buffer D (w, record { waiting = waiting; failure = failure }) in
        t.0 ≡ ok tt → (log t.1.0 ≡ log w ++ waiting) × (t.1.1.waiting ≡ [])
  unfolding flush_buffer
  flush_parts waiting (some x) w e = absurd cc
  flush_parts [] none w e = (sym (List.append-nil (log w)), refl)
  flush_parts (c ∷ s) none w e = unfold emit in ground (arith, h.put_log (c ∷ s) w)

  write_parts :
      (size : ℕ) (p waiting : Bytes) (failure : Option Error) (w : W)
      → let t = write_buffer D size p (w, record { waiting = waiting; failure = failure }) in
        t.0 ≡ ok tt → taken t.1 ≡ (log w ++ waiting) ++ p
  unfolding write_buffer
  write_parts size p waiting (some x) w e = absurd cc
  write_parts size p [] none w e = ground (
    arith,
    emit_lem p empty_buffer empty_buffer w,
    List.append-nil (log w ++ p),
    List.append-nil (log w),
  )
  write_parts size p (c ∷ s) none w e =
      let room = size - length (c ∷ s) in
      let full = (c ∷ s) ++ take room p in
      let old : Buffer = record { waiting = full; failure = none } in
      let t = emit D full empty_buffer (w, old) in
      elim (Bool-cases (leb (length p) room)) [
        | inl k ↦ ground (arith, List.append_assoc (log w) (c ∷ s) p)
        | inr k ↦ elim (Result-cases t.0) [
          | inl (_, done) ↦
              let (empty, there) = emit_lem full empty_buffer old w done in
              let last : write_buffer D size p (w, record { waiting = c ∷ s; failure = none })
                  ≡ write_rest D size (drop room p) (t.1.0, empty_buffer) =
                unfold write_buffer in ground (arith, empty) in
              let k' = write_rest_lem size (drop room p) t.1.0 (ground arith) in
              rw last (
                k'
                ∙ rw there (
                    List.append_assoc (log w) full (drop room p)
                    ∙ rw
                        (
                          List.append_assoc (c ∷ s) (take room p) (drop room p),
                          take-append-drop room p,
                        )
                        (sym (List.append_assoc (log w) (c ∷ s) p))))
          | inr (inl (x, done)) ↦ absurd (ground arith)
          | inr (inr done) ↦ absurd (ground arith)
        ]
      ]

-- The lines of records.
unfoldable pub lines : List Bytes → Bytes
lines [] = []
lines (r ∷ rs) = r ++ (newline ∷ lines rs)

module _ {W : Type 0} (D : Sink W) (size : ℕ) where
  -- A `Write` for each record.
  unfoldable pub write_records : List Bytes → Action (W × Writer) (Unit {0})
  write_records [] = pure tt
  write_records (r ∷ rs) = write D size r >> write_records rs

module _ {W : Type 0} (D : Sink W) (size : ℕ) (log : W → Bytes) (h : IsHonest D log) where
  abbrev held : W × Writer → Bytes
  held (w, x) = log w ++ x.buffer.waiting

  write_lem :
      (r : Bytes) (w : W) (x : Writer)
      → (write D size r (w, x)).0 ≡ ok tt
      → held (write D size r (w, x)).1 ≡ held (w, x) ++ (r ++ (newline ∷ []))
  unfolding write
  write_lem r w x e =
      let t = write_buffer D size r (w, x.buffer) in
      elim (Result-cases t.0) [
        | inl (_, k) ↦ ground (
          arith,
          write_parts D log h size r x.buffer.waiting x.buffer.failure w,
          write_parts D log h size (newline ∷ []) t.1.1.waiting t.1.1.failure t.1.0,
          List.append_assoc (held (w, x)) r (newline ∷ []),
        )
        | inr (inl (y, k)) ↦ absurd (ground arith)
        | inr (inr k) ↦ absurd (ground arith)
      ]

  write_open : (r : Bytes) (w : W) (x : Writer) → (write D size r (w, x)).1.1.closed ≡ x.closed
  unfolding write
  write_open r w x = ground arith

  write_records_open :
      (rs : List Bytes) (w : W) (x : Writer)
      → (write_records D size rs (w, x)).1.1.closed ≡ x.closed
  unfolding write_records
  write_records_open [] w x = refl
  write_records_open (r ∷ rs) w x =
      let first = write D size r (w, x) in
      ground (arith, write_open r w x, write_records_open rs first.1.0 first.1.1)

  close_lem :
      (w : W) (x : Writer)
      → x.closed ≡ false
      → (close D (w, x)).0 ≡ ok tt
      → log (close D (w, x)).1.0 ≡ held (w, x)
  unfolding close
  close_lem w x live e =
      let t = flush_buffer D (w, x.buffer) in
      ground (arith, flush_parts D log h x.buffer.waiting x.buffer.failure w, h.close_log t.1.0)

  write_records_lem :
      (rs : List Bytes) (w : W) (x : Writer)
      → (write_records D size rs (w, x)).0 ≡ ok tt
      → held (write_records D size rs (w, x)).1 ≡ held (w, x) ++ lines rs
  unfolding write_records lines
  write_records_lem [] w x e = sym (List.append-nil (held (w, x)))
  write_records_lem (r ∷ rs) w x e =
      let first = write D size r (w, x) in
      elim (Result-cases first.0) [
        | inl (_, k) ↦
            let on : write_records D size (r ∷ rs) (w, x) ≡ write_records D size rs first.1 =
              unfold write_records in ground (arith, k) in
            let rest = write_records_lem rs first.1.0 first.1.1 (ground (arith, on)) in
            rw on (
              rest
              ∙ rw (write_lem r w x k) (
                  List.append_assoc (held (w, x)) (r ++ (newline ∷ [])) (lines rs)
                  ∙ rw (List.append_assoc r (newline ∷ []) (lines rs)) refl))
        | inr (inl (y, k)) ↦ absurd (ground arith)
        | inr (inr k) ↦ absurd (ground arith)
      ]

  -- Whatever the sizes of the buffer and of the records: if each `Write` and the `Close` report
  -- success, all lines have arrived, in their order and with nothing between them.
  pub session_lem :
      (rs : List Bytes) (w : W)
      → ((write_records D size rs >> close D) (w, new_writer)).0 ≡ ok tt
      → log ((write_records D size rs >> close D) (w, new_writer)).1.0 ≡ log w ++ lines rs
  session_lem rs w e =
      let t = write_records D size rs (w, new_writer) in
      elim (Result-cases (write_records D size rs (w, new_writer)).0) [
        | inl (_, k) ↦ ground (
          arith,
          List.append-nil (log w),
          write_records_lem rs w new_writer k,
          write_records_open rs w new_writer,
          close_lem t.1.0 t.1.1,
        )
        | inr (inl (y, k)) ↦ absurd (ground arith)
        | inr (inr k) ↦ absurd (ground arith)
      ]
