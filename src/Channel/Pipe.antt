-- ===== src/Channel/Pipe.antt =====
-- `channelWriter` and `channelReader`. A call that would wait for another goroutine gives `blocked`
-- and changes nothing. A write is two steps, since the lock is free between the look at the flag
-- and the send.
use omnistorage.Base.{
  ℕ, Bytes, Bool, true, [], ◌∷◌, ◌++◌, Option, none, some, Error, Context, writer_closed,
  reader_closed, closed_pipe, eof, if◌then◌else◌, length, take, drop, ltb,
}
use omnistorage.Channel.State.{ChannelInfo, shut}

pub data Outcome (A : Type 0) : Type 0 where
  done : A → Outcome A
  failed : Error → Outcome A
  blocked panics : Outcome A

-- The first half of `channelWriter.Write`, up to the test of `closed`: with persistence the message
-- is kept even if the channel is closed. `none` lets the second half run.
unfoldable pub prepare : Bool → Context → Bool → Bytes → ChannelInfo → Option Error × ChannelInfo
prepare persistent ctx writer_shut p info =
    let kept = if persistent then record info { buffered = info.buffered ++ (p ∷ []) } else info in
    if writer_shut then (some writer_closed, info) else elim ctx [
      | some e ↦ (some e, info)
      | none ↦ (if kept.closed then some closed_pipe else none, kept)
    ]

-- The `select` at the end of `Write`: a send on a closed channel panics, and one on a full channel
-- waits. Where the context is done and there is room, Go takes one of the two cases: `ctx` is what
-- the case taken says. The capacity is positive: a channel without a buffer hands over directly.
unfoldable pub send : ℕ → Context → Bytes → ChannelInfo → Outcome ℕ × ChannelInfo
send capacity ctx p info = elim ctx [
  | some e ↦ (failed e, info)
  | none ↦
      if info.closed
      then (panics, info)
      else if ltb (length info.queue) capacity
      then (done (length p), record info { queue = info.queue ++ (p ∷ []) })
      else (blocked, info)
]

-- A `Write` with nothing between its halves.
unfoldable pub write : ℕ → Bool → Context → Bool → Bytes → ChannelInfo → Outcome ℕ × ChannelInfo
unfolding prepare send
write capacity persistent ctx writer_shut p info =
    let (refusal, info') = prepare persistent ctx writer_shut p info in
    elim refusal [ some e ↦ (failed e, info') | none ↦ send capacity ctx p info' ]

-- `channelWriter.Close`: whether the writer was closed, and the channel.
unfoldable pub close_writer : Bool → ChannelInfo → ChannelInfo
close_writer writer_shut info = if writer_shut then info else shut info

-- `buffer` is what persistence replays, and `current` what is left of the current message, from
-- `offset` on.
pub record ChannelReader : Type 0 where
  pub buffer : Bytes
  pub current : Bytes
  pub closed : Bool

-- `channelReader.Read` into a buffer of `n` bytes. An empty buffer reads nothing.
unfoldable pub read :
    Context → ℕ → ChannelReader → ChannelInfo → Outcome Bytes × (ChannelReader × ChannelInfo)
read ctx n r info = if r.closed then (failed reader_closed, (r, info)) else elim ctx [
  | some e ↦ (failed e, (r, info))
  | none ↦ elim r.buffer [
    | c ∷ s ↦ (done (take n (c ∷ s)), (record r { buffer = drop n (c ∷ s) }, info))
    | [] ↦ elim r.current [
      | c ∷ s ↦ (done (take n (c ∷ s)), (record r { current = drop n (c ∷ s) }, info))
      | [] ↦ elim info.queue [
        | m ∷ queue ↦
            (done (take n m), (record r { current = drop n m }, record info { queue = queue }))
        | [] ↦ (if info.closed then failed eof else blocked, (r, info))
      ]
    ]
  ]
]

-- `channelReader.Close`
abbrev pub close_reader : ChannelReader → ChannelReader
close_reader r = record r { closed = true }
