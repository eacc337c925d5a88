-- ===== src/Channel/Flow.antt =====
-- Any number of writers and one reader of a channel, in any order of their steps.
use mathlib.Core.List
use mathlib.Core.List.{flatten}
use omnistorage.Base.{
  ℕ, ◌≤◌, ◌<◌, Bytes, ◌≡◌, refl, sym, ap, ◌∙◌, Bool, true, false, List, [], ◌∷◌, ◌++◌, none, arith,
  length, length-append, take, drop, take-append-drop,
}
use omnistorage.Channel.State.{ChannelInfo, shut}
use omnistorage.Channel.Pipe.{done, prepare, send, ChannelReader, read}

-- A channel with its reader, the messages of writes between their halves, and what has been sent
-- and received so far.
pub record Flow : Type 0 where
  pub info : ChannelInfo
  pub reader : ChannelReader
  pub in_flight : List Bytes
  pub sent : Bytes
  pub received : Bytes

module _ (capacity : ℕ) (persistent : Bool) where
  -- A step of a writer, of the reader or of whoever closes the channel.
  pub data Step (f : Flow) : Flow → Type 0 where
    begins :
        (p : Bytes) (info : ChannelInfo)
        → prepare persistent none false p f.info ≡ (none, info)
        → Step f (record f { info = info; in_flight = p ∷ f.in_flight })
    is_sent :
        (p : Bytes) (before behind : List Bytes) (n : ℕ) (info : ChannelInfo)
        → f.in_flight ≡ before ++ p ∷ behind
        → send capacity none p f.info ≡ (done n, info)
        → Step f (record f { info = info; in_flight = before ++ behind; sent = f.sent ++ p })
    gives_up :
        (p : Bytes) (before behind : List Bytes)
        → f.in_flight ≡ before ++ p ∷ behind
        → Step f (record f { in_flight = before ++ behind })
    reads :
        (n : ℕ) (bytes : Bytes) (reader : ChannelReader) (info : ChannelInfo)
        → read none n f.reader f.info ≡ (done bytes, (reader, info))
        → Step f (record f { reader = reader; info = info; received = f.received ++ bytes })
    is_shut : Step f (record f { info = shut f.info })

  pub data Reach (f : Flow) : Flow → Type 0 where
    here : Reach f f
    next : {g h : Flow} → Reach f g → Step g h → Reach f h

-- What the reader has received and can still receive.
abbrev pub total : Flow → Bytes
total f = f.received ++ (f.reader.buffer ++ (f.reader.current ++ flatten f.info.queue))

prepare-queue :
    (persistent : Bool) (p : Bytes) (info info' : ChannelInfo)
    → prepare persistent none false p info ≡ (none, info')
    → (info'.queue ≡ info.queue)
unfolding prepare
prepare-queue persistent p info info' e = ground arith

send-queue :
    (capacity : ℕ) (p : Bytes) (info info' : ChannelInfo) (n : ℕ)
    → send capacity none p info ≡ (done n, info')
    → (info'.queue ≡ info.queue ++ (p ∷ [])) × (length info.queue < capacity)
unfolding send
send-queue capacity p info info' n e = ground arith

abbrev left : Bytes → Bytes → List Bytes → Bytes
left buffer current queue = buffer ++ (current ++ flatten queue)

-- A read takes bytes off the front of what is left.
read_parts :
    (n : ℕ) (buffer current : Bytes) (queue : List Bytes) (shut_r shut_c : Bool) (kept : List Bytes)
    (r' : ChannelReader) (info' : ChannelInfo) (bytes : Bytes)
    → read none n
        (record { buffer = buffer; current = current; closed = shut_r })
        (record { queue = queue; closed = shut_c; buffered = kept })
      ≡ (done bytes, (r', info'))
    → (bytes ++ left r'.buffer r'.current info'.queue ≡ left buffer current queue)
      × (length info'.queue ≤ length queue)
unfolding read flatten
read_parts n buffer current queue true shut_c kept r' info' bytes e = cc
read_parts n (c ∷ s) current queue false shut_c kept r' info' bytes e = ground (
  arith,
  take-append-drop n (c ∷ s),
  List.append_assoc (take n (c ∷ s)) (drop n (c ∷ s)) (current ++ flatten queue),
)
read_parts n [] (c ∷ s) queue false shut_c kept r' info' bytes e = ground (
  arith,
  take-append-drop n (c ∷ s),
  List.append_assoc (take n (c ∷ s)) (drop n (c ∷ s)) (flatten queue),
)
read_parts n [] [] (m ∷ queue) false shut_c kept r' info' bytes e =
    ground (arith, take-append-drop n m, List.append_assoc (take n m) (drop n m) (flatten queue))
read_parts n [] [] [] false true kept r' info' bytes e = cc
read_parts n [] [] [] false false kept r' info' bytes e = cc

flatten-append : (xs ys : List Bytes) → flatten (xs ++ ys) ≡ flatten xs ++ flatten ys
unfolding flatten
flatten-append [] ys = refl
flatten-append (x ∷ xs) ys =
    ap (λ l. x ++ l) (flatten-append xs ys) ∙ sym (List.append_assoc x (flatten xs) (flatten ys))

flatten_one : (p : Bytes) → flatten (p ∷ []) ≡ p
unfolding flatten
flatten_one p = List.append-nil p

-- What was there at the start, and then what was sent, is what the reader has and will have; and
-- there are no more messages in the channel than it can hold.
pub record IsBalanced (capacity : ℕ) (start : Bytes) (f : Flow) : Type 0 where
  pub balance : total f ≡ start ++ f.sent
  pub bounded : length f.info.queue ≤ capacity

total_sent :
    (f : Flow) (p : Bytes) (queue : List Bytes)
    → queue ≡ f.info.queue ++ (p ∷ [])
    → f.received ++ (f.reader.buffer ++ (f.reader.current ++ flatten queue)) ≡ total f ++ p
total_sent f p queue e =
    rw (e, flatten-append f.info.queue (p ∷ []), flatten_one p)
      (rw
        (
          List.append_assoc f.received (left f.reader.buffer f.reader.current f.info.queue) p,
          List.append_assoc f.reader.buffer (f.reader.current ++ flatten f.info.queue) p,
          List.append_assoc f.reader.current (flatten f.info.queue) p,
        )
        refl)

module _ (capacity : ℕ) (persistent : Bool) (start : Bytes) where
  Step-IsBalanced :
      {f g : Flow}
      → Step capacity persistent f g
      → IsBalanced capacity start f
      → IsBalanced capacity start g
  Step-IsBalanced {f} (begins p info e) b =
      let q = prepare-queue persistent p f.info info e in
      record { balance = rw q b.balance; bounded = rw q b.bounded }
  Step-IsBalanced {f} (is_sent p before behind n info k e) b =
      let (q, room) = send-queue capacity p f.info info n e in
      record {
        balance =
            total_sent f p info.queue q
            ∙ ap (λ l. l ++ p) b.balance
            ∙ List.append_assoc start f.sent p;
        bounded = rw q (rw (length-append f.info.queue (p ∷ [])) (omega arith));
      }
  Step-IsBalanced (gives_up p before behind k) b = record {
    balance = b.balance;
    bounded = b.bounded;
  }
  Step-IsBalanced {f} (reads n bytes reader info e) b =
      let (q, fewer) =
        read_parts n f.reader.buffer f.reader.current f.info.queue f.reader.closed f.info.closed
          f.info.buffered reader info bytes e in
      record {
        balance =
            List.append_assoc f.received bytes (left reader.buffer reader.current info.queue)
            ∙ ap (λ l. f.received ++ l) q
            ∙ b.balance;
        bounded = omega (arith, b.bounded, fewer);
      }
  Step-IsBalanced is_shut b = record { balance = b.balance; bounded = b.bounded }

  -- However the steps of the writers, of the reader and of a closing are interleaved, the bytes that
  -- were received and those left for the reader are those at the start and then those sent, in the
  -- order in which they were sent; and the channel never holds more messages than its capacity.
  pub Reach-IsBalanced :
      {f g : Flow}
      → IsBalanced capacity start f
      → Reach capacity persistent f g
      → IsBalanced capacity start g
  Reach-IsBalanced b here = b
  Reach-IsBalanced b (next r st) = Step-IsBalanced st (Reach-IsBalanced b r)
