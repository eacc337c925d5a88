-- ===== src/Channel/State.antt =====
-- The channels and the backend. Writers and readers hold a pointer to their channel, which stays
-- theirs when the backend forgets its path, so channels live in a heap; a pointer is a number.
use omnistorage.Base.{
  ℕ, suc, Bytes, bytes_eq, nat_eq, Bool, true, false, List, [], Option, none, some, Context, ok,
  err, panic, backend_closed, invalid_path, if◌then◌else◌, ◌==◌,
}
use omnistorage.Base.Action.{Action, ◌>>◌, check_ctx, fail_when}
use omnistorage.Base.Dict
use omnistorage.Base.Dict.{Dict}

-- `channelInfo`: the messages in the channel; whether it is closed, which the flag says from the
-- same locked section on that closes it; and what persistence keeps.
pub record ChannelInfo : Type 0 where
  pub queue : List Bytes
  pub closed : Bool
  pub buffered : List Bytes

-- `channels` is `none` where the map is nil.
pub record Backend : Type 0 where
  pub channels : Option (Dict Bytes ℕ)
  pub heap : Dict ℕ ChannelInfo
  pub next : ℕ
  pub buffer_size : ℕ
  pub persistent : Bool
  pub closed : Bool

-- `New`, after its options.
abbrev pub new : ℕ → Bool → Backend
new buffer_size persistent = record {
  channels = some [];
  heap = [];
  next = 0;
  buffer_size = buffer_size;
  persistent = persistent;
  closed = false;
}

-- What `make` leaves at a new channel.
abbrev pub empty_channel : ChannelInfo
empty_channel = record { queue = []; closed = false; buffered = [] }

abbrev pub channels_of : Backend → Dict Bytes ℕ
channels_of b = elim b.channels [ none ↦ [] | some d ↦ d ]

-- The channel that a pointer points to.
unfoldable pub deref : ℕ → Backend → ChannelInfo
deref h b = elim (Dict.lookup h b.heap) [ none ↦ empty_channel | some info ↦ info ]

unfoldable pub update : ℕ → ChannelInfo → Backend → Backend
update h info b = record b { heap = Dict.insert h info b.heap }

-- `close(info.ch); info.closed = true`
abbrev pub shut : ChannelInfo → ChannelInfo
shut info = record info { closed = true }

-- `getOrCreateChannel`, which panics where the map is nil.
unfoldable pub get_or_create_channel : Bytes → Action Backend ℕ
get_or_create_channel p b = elim b.channels [
  | none ↦ (panic, b)
  | some d ↦ elim (Dict.lookup p d) [
    | some h ↦ (ok h, b)
    | none ↦ (
      ok b.next,
      record b {
        channels = some (Dict.insert p b.next d);
        heap = Dict.insert b.next empty_channel b.heap;
        next = suc b.next;
      },
    )
  ]
]

abbrev pub check_closed : Action Backend (Unit {0})
check_closed b = (if b.closed then err backend_closed else ok tt, b)

-- `checkClosed`, `ctx.Err` and the test for an empty path, in this order.
abbrev pub guards : Context → Bytes → Action Backend (Unit {0})
guards ctx p = check_closed >> check_ctx ctx >> fail_when (p == []) invalid_path
