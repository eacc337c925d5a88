-- ===== src/Ndjson/Buffer.antt =====
-- `bufio.Writer`, over a place for bytes whose `Write` takes all that it is given or fails.
use omnistorage.Base.{
  ℕ, ◌-◌, Bytes, [], ◌∷◌, ◌++◌, Option, none, some, Error, ok, err, panic, if◌then◌else◌, length,
  take, drop, leb,
}
use omnistorage.Base.Action.{Action}

pub record Sink (W : Type 0) : Type 0 where
  pub put : Bytes → Action W (Unit {0})
  pub close : Action W (Unit {0})

-- What waits in the buffer, and the first failure, which stays.
pub record Buffer : Type 0 where
  pub waiting : Bytes
  pub failure : Option Error

-- `NewWriterSize`
abbrev pub empty_buffer : Buffer
empty_buffer = record { waiting = []; failure = none }

module _ {W : Type 0} (D : Sink W) where
  -- Bytes go past the buffer, or out of it; `b` is what is left if they arrive. What a failure
  -- leaves in the buffer is never written.
  unfoldable pub emit : Bytes → Buffer → Action (W × Buffer) (Unit {0})
  emit p b (w, old) =
      let (r, w') = D.put p w in
      elim r [
        | ok _ ↦ (ok tt, (w', b))
        | err e ↦ (err e, (w', record old { failure = some e }))
        | panic ↦ (panic, (w', old))
      ]

  -- `Flush`
  unfoldable pub flush_buffer : Action (W × Buffer) (Unit {0})
  unfolding emit
  flush_buffer (w, b) = elim b.failure [
    | some e ↦ (err e, (w, b))
    | none ↦ elim b.waiting [
      | [] ↦ (ok tt, (w, b))
      | c ∷ s ↦ emit (c ∷ s) (record b { waiting = [] }) (w, b)
    ]
  ]

  -- The end of `Write`: what fits into the empty buffer waits there, and more is written at once.
  unfoldable pub write_rest : ℕ → Bytes → Action (W × Buffer) (Unit {0})
  unfolding emit
  write_rest size p (w, b) =
      if leb (length p) size then (ok tt, (w, record b { waiting = p })) else emit p b (w, b)

  -- `Write`: what does not fit fills the buffer first, which is then flushed.
  unfoldable pub write_buffer : ℕ → Bytes → Action (W × Buffer) (Unit {0})
  unfolding emit write_rest
  write_buffer size p (w, b) =
      let room = size - length b.waiting in
      elim b.failure [
        | some e ↦ (err e, (w, b))
        | none ↦
            if leb (length p) room
            then (ok tt, (w, record b { waiting = b.waiting ++ p }))
            else elim b.waiting [
              | [] ↦ emit p b (w, b)
              | c ∷ s ↦
                  let full = (c ∷ s) ++ take room p in
                  let (r, t) =
                    emit full (record b { waiting = [] }) (w, record b { waiting = full }) in
                  elim r [
                    | ok _ ↦ write_rest size (drop room p) t
                    | err e ↦ (err e, t)
                    | panic ↦ (panic, t)
                  ]
            ]
      ]
