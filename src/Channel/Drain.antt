-- ===== src/Channel/Drain.antt =====
-- A reader that comes when the writers are done, and the race between a write and a close.
use mathlib.Core.List
use mathlib.Core.List.{flatten}
use omnistorage.Base.{
  ℕ, zero, suc, ◌+◌, ◌≤◌, ◌<◌, Bytes, ◌≡◌, refl, ◌∙◌, ◌≢◌, Bool, true, false, List, [], ◌∷◌, ◌++◌,
  none, eof, Context, arith, length, length-append, take, drop, take-append-drop, length-drop,
  if◌then◌else◌,
}
use omnistorage.Channel.State.{ChannelInfo, empty_channel}
use omnistorage.Channel.Pipe.{
  Outcome, done, failed, blocked, panics, prepare, send, write, close_writer, ChannelReader, read,
}
use omnistorage.Channel.Calls.{reader_of}

-- A `Write` for each chunk.
unfoldable pub write_each : ℕ → Bool → List Bytes → ChannelInfo → ChannelInfo
write_each capacity persistent [] info = info
write_each capacity persistent (p ∷ ps) info =
    write_each capacity persistent ps (write capacity persistent none false p info).1

-- What a client collects that reads `n` bytes at a time until the reader fails or waits, and that.
unfoldable pub drain : ℕ → ℕ → ChannelReader → ChannelInfo → Bytes × Outcome Bytes
drain zero n r info = ([], blocked)
drain (suc fuel) n r info =
    let (got, (r', info')) = read none n r info in
    elim got [
      | done bytes ↦ let (more, e) = drain fuel n r' info' in (bytes ++ more, e)
      | failed e ↦ ([], failed e)
      | blocked ↦ ([], blocked)
      | panics ↦ ([], panics)
    ]

-- A read of at least a byte, for each byte and each message.
abbrev pub effort : List Bytes → ℕ
effort [] = 0
effort (m ∷ ms) = suc (length m) + effort ms

drain_parts :
    (fuel n : ℕ) (buffer current : Bytes) (queue kept : List Bytes)
    → length buffer + length current + effort queue < fuel
    → drain fuel
        (suc n)
        (record { buffer = buffer; current = current; closed = false })
        (record { queue = queue; closed = true; buffered = kept })
      ≡ (buffer ++ (current ++ flatten queue), failed eof)
unfolding drain read flatten
drain_parts zero n buffer current queue kept h = absurd (omega arith)
drain_parts (suc fuel) n (c ∷ s) current queue kept h =
    rw (drain_parts fuel n (drop n s) current queue kept (omega (arith, length-drop n s))) (
      rw
        (← List.append_assoc (take n s) (drop n s) (current ++ flatten queue), take-append-drop n s)
        refl)
drain_parts (suc fuel) n [] (c ∷ s) queue kept h =
    rw (drain_parts fuel n [] (drop n s) queue kept (omega (arith, length-drop n s)))
      (rw (← List.append_assoc (take n s) (drop n s) (flatten queue), take-append-drop n s) refl)
drain_parts (suc fuel) n [] [] (m ∷ queue) kept h =
    rw (drain_parts fuel n [] (drop (suc n) m) queue kept (omega (arith, length-drop (suc n) m))) (
      rw
        (
          ← List.append_assoc (take (suc n) m) (drop (suc n) m) (flatten queue),
          take-append-drop (suc n) m,
        )
        refl)
drain_parts (suc fuel) n [] [] [] kept h = refl

write_open :
    (capacity : ℕ) (persistent : Bool) (p : Bytes) (queue kept : List Bytes)
    → length queue < capacity
    → write capacity persistent none false p
        (record { queue = queue; closed = false; buffered = kept })
      ≡ (
        done (length p),
        record {
          queue = queue ++ (p ∷ []);
          closed = false;
          buffered = if persistent then kept ++ (p ∷ []) else kept;
        },
      )
unfolding write
write_open capacity persistent p queue kept h = unfold prepare in unfold send in ground arith

write_each_open :
    (capacity : ℕ) (persistent : Bool) (chunks queue kept : List Bytes)
    → length queue + length chunks ≤ capacity
    → write_each capacity persistent chunks
        (record { queue = queue; closed = false; buffered = kept })
      ≡ record {
        queue = queue ++ chunks;
        closed = false;
        buffered = if persistent then kept ++ chunks else kept;
      }
unfolding write_each
write_each_open capacity true [] queue kept h =
    rw (List.append-nil queue, List.append-nil kept) refl
write_each_open capacity false [] queue kept h = rw (List.append-nil queue) refl
write_each_open capacity true (p ∷ ps) queue kept h =
    rw (write_open capacity true p queue kept (omega arith)) (
      write_each_open capacity true ps (queue ++ (p ∷ [])) (kept ++ (p ∷ []))
        (omega (arith, length-append queue (p ∷ [])))
      ∙ rw (List.append_assoc queue (p ∷ []) ps, List.append_assoc kept (p ∷ []) ps) refl)
write_each_open capacity false (p ∷ ps) queue kept h =
    rw (write_open capacity false p queue kept (omega arith)) (
      write_each_open capacity false ps (queue ++ (p ∷ [])) kept
        (omega (arith, length-append queue (p ∷ [])))
      ∙ rw (List.append_assoc queue (p ∷ []) ps) refl)

-- A new channel after a `Write` for each chunk and a `Close`.
abbrev pub written : ℕ → Bool → List Bytes → ChannelInfo
written capacity persistent chunks =
    close_writer false (write_each capacity persistent chunks empty_channel)

-- If a new channel has room for all messages, which are written and the writer closed, then a reader
-- that is opened after that gets all bytes in order, in pieces of any positive size, and then the
-- end, within as many reads as said. With persistence it gets all bytes twice: those kept, and then
-- those still in the channel.
pub late_reader :
    (capacity fuel n : ℕ) (persistent : Bool) (chunks : List Bytes)
    → length chunks ≤ capacity
    → 0 < n
    → length (flatten chunks) + effort chunks < fuel
    → drain fuel n
        (reader_of persistent (written capacity persistent chunks))
        (written capacity persistent chunks)
      ≡ ((if persistent then flatten chunks else []) ++ flatten chunks, failed eof)
unfolding close_writer
late_reader capacity fuel zero persistent chunks room p h = absurd (omega arith)
late_reader capacity fuel (suc n) true chunks room p h =
    rw (write_each_open capacity true chunks [] [] (omega arith), close_writer)
      (drain_parts fuel n (flatten chunks) [] chunks chunks (omega arith))
late_reader capacity fuel (suc n) false chunks room p h =
    rw (write_each_open capacity false chunks [] [] (omega arith), close_writer)
      (drain_parts fuel n [] [] chunks [] (omega arith))

-- A `Write` with nothing between its halves never panics, whatever the channel is like. But when
-- another writer of the path closes between the halves, the send panics, whatever is sent.
pub write_race :
    (capacity : ℕ) (persistent : Bool) (p : Bytes) (info info' : ChannelInfo)
    → ((ctx : Context) (writer_shut : Bool)
        → (write capacity persistent ctx writer_shut p info).0 ≢ panics)
      × (prepare persistent none false p info ≡ (none, info')
          → (send capacity none p (close_writer false info')).0 ≡ panics)
write_race capacity persistent p info info' = (
  (λ ctx writer_shut. unfold write in unfold prepare in unfold send in λ e. ground arith),
  λ e. unfold send in unfold close_writer in refl,
)
