-- ===== src/Tests/Channel.antt =====
-- A channel with two messages, and the theorems on it.
use mathlib.Core.List.{flatten}
use omnistorage.Base.{
  ℕ, Bytes, bytes_eq, nat_eq, ◌≡◌, refl, true, false, [], ◌∷◌, codes, none, some, eof, arith,
}
use omnistorage.Base.Dict
use omnistorage.Channel.State.{
  ChannelInfo, Backend, new, channels_of, deref, update, empty_channel, get_or_create_channel,
}
use omnistorage.Channel.Pipe.{failed, done, prepare, send, read}
use omnistorage.Channel.Calls.{reader_of, new_writer, delete, delete_locked, close}
use omnistorage.Channel.Flow.{
  Flow, Reach, is_sent, begins, reads, here, next, IsBalanced, Reach-IsBalanced,
}
use omnistorage.Channel.Drain.{drain, written, late_reader}
use omnistorage.Channel.Ends.{close_ends}

-- What the runs below compute through.
sends : ℕ → Bytes → ChannelInfo → ChannelInfo
unfolding prepare send read get_or_create_channel new_writer deref update delete delete_locked close
    bytes_eq nat_eq Dict.lookup Dict.insert Dict.erase
sends capacity p info = (send capacity none p info).1

abbrev quiet : Flow
quiet = record {
  info = empty_channel;
  reader = reader_of false empty_channel;
  in_flight = [];
  sent = [];
  received = [];
}

abbrev busy : Flow
busy = record quiet {
  info = record { queue = codes "ab" ∷ []; closed = false; buffered = [] };
  in_flight = [];
  sent = codes "ab";
}

abbrev half_read : Flow
half_read = record busy {
  info = empty_channel;
  reader = record { buffer = []; current = codes "b"; closed = false };
  received = codes "a";
}

quiet-IsBalanced : IsBalanced 1 [] quiet
unfolding flatten
quiet-IsBalanced = record { balance = refl; bounded = omega arith }

ab-ready : prepare false none false (codes "ab") empty_channel ≡ (none, empty_channel)
unfolding sends
ab-ready = refl

ab-sent : send 1 none (codes "ab") empty_channel ≡ (done 2, busy.info)
unfolding sends
ab-sent = refl

a-read : read none 1 busy.reader busy.info ≡ (done (codes "a"), (half_read.reader, half_read.info))
unfolding sends
a-read = refl

steps : Reach 1 false quiet half_read
steps =
    next
      (next (next here (begins (codes "ab") empty_channel ab-ready))
        (is_sent (codes "ab") [] [] 2 busy.info refl ab-sent))
      (reads 1 (codes "a") half_read.reader half_read.info a-read)

Reach-IsBalanced_example : IsBalanced 1 [] half_read
Reach-IsBalanced_example = Reach-IsBalanced 1 false [] quiet-IsBalanced steps

late_reader_example :
    let info = written 5 true (codes "ab" ∷ codes "c" ∷ []) in
    drain 20 2 (reader_of true info) info ≡ (codes "abcabc", failed eof)
unfolding flatten
late_reader_example =
    late_reader 5 20 2 true (codes "ab" ∷ codes "c" ∷ []) (omega arith) (omega arith) (omega arith)

-- A backend with a channel at "x".
abbrev one_channel : Backend
one_channel = (new_writer none (codes "x") (new 5 false)).1

x-open : one_channel.closed ≡ false
unfolding sends
x-open = refl

x-there : Dict.lookup (codes "x") (channels_of one_channel) ≡ some 0
unfolding sends
x-there = refl

close_ends_example :
    ((close one_channel).1.closed ≡ true) × ((deref 0 (close one_channel).1).closed ≡ true)
close_ends_example = close_ends one_channel (codes "x") 0 x-open x-there
