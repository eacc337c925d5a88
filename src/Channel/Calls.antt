-- ===== src/Channel/Calls.antt =====
-- The methods of the channel backend.
use mathlib.Core.List.{flatten}
use omnistorage.Base.{
  ℕ, suc, Bytes, bytes_eq, nat_eq, Bool, true, false, ◌||◌, List, [], ◌∷◌, ◌++◌, none, some,
  Context, ok, err, if◌then◌else◌, ◌==◌, length, ltb,
}
use omnistorage.Base.Action.{Action, ◌>>=◌, ◌>>◌, check_ctx, pure, gets}
use omnistorage.Base.Dict
use omnistorage.Base.Dict.{Dict}
use omnistorage.Base.Sort.{sort_strings}
use omnistorage.Paths.Text.{has_prefix}
use omnistorage.Channel.State.{
  ChannelInfo, Backend, channels_of, deref, update, shut, get_or_create_channel, check_closed,
  guards,
}
use omnistorage.Channel.Pipe.{ChannelReader}

-- `NewWriter`: the pointer that the writer holds.
unfoldable pub new_writer : Context → Bytes → Action Backend ℕ
new_writer ctx p = guards ctx p >> get_or_create_channel p

abbrev pub reader_of : Bool → ChannelInfo → ChannelReader
reader_of persistent info = record {
  buffer = if persistent then flatten info.buffered else [];
  current = [];
  closed = false;
}

-- `NewReader`: the pointer that the reader holds, and the reader.
unfoldable pub new_reader : Context → Bytes → Action Backend (ℕ × ChannelReader)
new_reader ctx p = do
  guards ctx p
  h ← get_or_create_channel p
  reader ← gets (λ b. reader_of b.persistent (deref h b))
  pure (h, reader)

unfoldable pub exists : Context → Bytes → Action Backend Bool
exists ctx p = check_closed >> check_ctx ctx >> gets (λ b. Dict.contains p (channels_of b))

abbrev shut_at : ℕ → Backend → Backend
shut_at h b = update h (shut (deref h b)) b

-- `delete(b.channels, path)`
abbrev forget : Bytes → Backend → Backend
forget p b = record b {
  channels = elim b.channels [ none ↦ none | some d ↦ some (Dict.erase p d) ];
}

-- The part of `Delete` under the lock: the channel of the path is closed and forgotten.
unfoldable pub delete_locked : Bytes → Action Backend (Unit {0})
delete_locked p b = elim (Dict.lookup p (channels_of b)) [
  | none ↦ (ok tt, b)
  | some h ↦ (ok tt, forget p (shut_at h b))
]

unfoldable pub delete : Context → Bytes → Action Backend (Unit {0})
delete ctx p = check_closed >> check_ctx ctx >> delete_locked p

unfoldable pub paths_under : Bytes → Dict Bytes ℕ → List Bytes
paths_under prefix [] = []
paths_under prefix ((p, _) ∷ d) =
    let rest = paths_under prefix d in
    if prefix == [] || has_prefix p prefix then p ∷ rest else rest

unfoldable pub list : Context → Bytes → Action Backend (List Bytes)
unfolding paths_under
list ctx prefix =
    check_closed >> check_ctx ctx >> gets (λ b. sort_strings (paths_under prefix (channels_of b)))

unfoldable pub shut_all : Dict Bytes ℕ → Backend → Backend
shut_all [] b = b
shut_all ((_, h) ∷ d) b = shut_all d (shut_at h b)

-- `Close`: all channels are closed, and the map becomes nil.
unfoldable pub close : Action Backend (Unit {0})
unfolding shut_all
close b =
    if b.closed
    then (ok tt, b)
    else (ok tt, record (shut_all (channels_of b) b) { channels = none; closed = true })

-- The message goes into a channel that is open and not full, and is dropped otherwise.
abbrev offer : ℕ → Bytes → ChannelInfo → ChannelInfo
offer capacity message info =
    if info.closed
    then info
    else if ltb (length info.queue) capacity
    then record info { queue = info.queue ++ (message ∷ []) }
    else info

-- The loop of `Broadcast`, with what the context says at each channel, if its case is taken there.
unfoldable pub broadcast_loop :
    (ℕ → Context) → ℕ → Bytes → Bytes → Dict Bytes ℕ → Action Backend (Unit {0})
broadcast_loop ctx n prefix message [] b = (ok tt, b)
broadcast_loop ctx n prefix message ((p, h) ∷ d) b =
    let info = deref h b in
    elim (prefix == [] || has_prefix p prefix) [
      | false ↦ broadcast_loop ctx (suc n) prefix message d b
      | true ↦ elim info.closed [
        | true ↦ broadcast_loop ctx (suc n) prefix message d b
        | false ↦ elim (ctx n) [
          | some e ↦ (err e, b)
          | none ↦
              broadcast_loop ctx (suc n) prefix message d
                (update h (offer b.buffer_size message info) b)
        ]
      ]
    ]

unfoldable pub broadcast : (ℕ → Context) → Bytes → Bytes → Action Backend (Unit {0})
unfolding broadcast_loop
broadcast ctx prefix message =
    check_closed >> λ b. broadcast_loop ctx 0 prefix message (channels_of b) b

-- `ChannelCount`
unfoldable pub channel_count : Backend → ℕ
channel_count b = length (channels_of b)
