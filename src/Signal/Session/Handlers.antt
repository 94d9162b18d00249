-- ===== src/Signal/Session/Handlers.antt =====
-- The handlers of handler.go, over the server and the session. `panics` is Go's panic on a nil room, after which the
-- deferred `close` of `Run` runs.
use Prim.Native.String.{◌++◌ as str_append}
use mephi_sfu_server_project.Common.{
  String, str_eq, Bool, true, false, not, ◌&&◌, ◌||◌, Option, none, some, if◌then◌else◌, ◌==◌,
}
use mephi_sfu_server_project.Map.{lookup}
use mephi_sfu_server_project.Peer.{Pion, default_peer_config}
use mephi_sfu_server_project.Peer.Ops as PeerOps
use mephi_sfu_server_project.Receiver.{audio, video}
use mephi_sfu_server_project.Cluster.{Redis}
use mephi_sfu_server_project.Room.{Room, default_room_config}
use mephi_sfu_server_project.Room.Ops as RoomOps
use mephi_sfu_server_project.Room.Ops.{JoinError}
use mephi_sfu_server_project.Room.Invariant.History.{Call, joins, leaves, updates}
use mephi_sfu_server_project.Server.{SfuServer}
use mephi_sfu_server_project.Server.Ops.{
  create_room, get_or_create_room, on_room, lookup_room_node, Place, local, lookup_failed, remote,
}
use mephi_sfu_server_project.Signal.Message.{
  Json, Message, join, answer, candidate, leave, unknown, JoinPayload, ErrorCode, room_full,
  peer_already_joined, invalid_payload, missing_fields, redirect_message,
}
use mephi_sfu_server_project.Signal.Session.{
  Session, RoomRef, PeerRef, send_message, send_error, spawn_close,
}

pub data Outcome (S : Type 0) : Type 0 where
  returns panics : SfuServer S → Session → Outcome S

-- A call on the room that a pointer leads to: it has an effect on the server where the room is still in the registry.
unfoldable pub through : {S : Type 0} → Redis S → RoomRef → Call → SfuServer S → SfuServer S
through redis ref c sv = elim (lookup ref.id sv.rooms) [
  | none ↦ sv
  | some room ↦ if room.address == ref.address then on_room redis c ref.id sv else sv
]

-- `room.Leave` through the pointers of a session, where it has both.
unfoldable pub leave_room :
    {S : Type 0} → Redis S → Option RoomRef → Option PeerRef → SfuServer S → SfuServer S
unfolding through
leave_room redis none p sv = sv
leave_room redis (some ref) none sv = sv
leave_room redis (some ref) (some p) sv = through redis ref (leaves p.id) sv

abbrev pub forget : Option RoomRef → Option PeerRef → Session → Session
forget none p s = s
forget (some ref) none s = s
forget (some ref) (some p) s = record s { room = none; peer = none }

unfoldable pub handle_leave : {S : Type 0} → Redis S → SfuServer S → Session → Outcome S
unfolding leave_room
handle_leave redis sv s = returns (leave_room redis s.room s.peer sv) (forget s.room s.peer s)

-- `close`
unfoldable pub close : {S : Type 0} → Redis S → SfuServer S → Session → SfuServer S × Session
unfolding leave_room
close redis sv s =
    if s.close_once
    then (sv, s)
    else (leave_room redis s.room s.peer sv, record s { close_once = true; cancelled = true })

-- `Run` ends, and closes the session; the flag tells whether the session goes on.
abbrev pub stop : {S : Type 0} → Redis S → SfuServer S → Session → SfuServer S × Session × Bool
stop redis sv s = let (sv', s') = close redis sv s in (sv', s', false)

abbrev pub settle : {S : Type 0} → Redis S → Outcome S → SfuServer S × Session × Bool
settle redis (returns sv s) = (sv, s, true)
settle redis (panics sv s) = stop redis sv s

-- What a failed `Join` tells the client; pion's error text is not modelled.
unfoldable pub join_code : JoinError → ErrorCode
join_code RoomOps.room_full = room_full
join_code RoomOps.peer_already_joined = peer_already_joined
join_code RoomOps.no_connection = invalid_payload

unfoldable pub join_text : JoinError → String
join_text RoomOps.room_full = "room is full"
join_text RoomOps.peer_already_joined = "peer already joined"
join_text RoomOps.no_connection = "no connection"

module _ {S : Type 0} (redis : Redis S) (pion : Pion) (json : Json) (pick : Bool) where
  -- What follows a `Join` that succeeded: the pointers, the callback, the transceivers and what pion runs for them.
  unfoldable pub after_join : JoinPayload → Room → SfuServer S → Session → Outcome S
  unfolding through
  after_join payload room sv s =
      let room_ref : RoomRef = record { id = payload.room_id; address = room.address } in
      let peer_ref : PeerRef = record { id = payload.peer_id; address = room.admitted } in
      let s' = record s { room = some room_ref; peer = some peer_ref } in
      let sv' = through redis room_ref (updates PeerOps.listens payload.peer_id room.admitted) sv in
      if pion.add_transceiver audio && pion.add_transceiver video
      then returns
          (through redis room_ref (updates (PeerOps.negotiates pion) payload.peer_id room.admitted)
            sv')
          s'
      else returns sv' (send_error json pick "failed to init publisher" invalid_payload s')

  -- `room.Join` and what follows, for the room that `GetOrCreateRoom` gave.
  unfoldable pub join_room : JoinPayload → SfuServer S → Session → Outcome S
  unfolding after_join join_code join_text
  join_room payload sv s = elim (lookup payload.room_id sv.rooms) [
    | none ↦ panics sv s
    | some room ↦
        let (room', err) = RoomOps.join pion payload.peer_id default_peer_config room in
        elim err [
          | some e ↦ returns sv (send_error json pick (join_text e) (join_code e) s)
          | none ↦
              after_join payload room
                (on_room redis (joins pion payload.peer_id default_peer_config) payload.room_id sv)
                s
        ]
  ]

  -- A room is found or made, or the nil room is used.
  unfoldable pub enter : JoinPayload → SfuServer S → Session → Outcome S
  unfolding join_room
  enter payload sv s =
      let (sv', err) = get_or_create_room redis pion payload.room_id default_room_config sv in
      elim err [ some e ↦ panics sv' s | none ↦ join_room payload sv' s ]

  -- `GetOrCreateRoom` looks for the room and makes it under two locks. This is the rest of a `join` whose look found no
  -- room, whatever others have done since.
  unfoldable pub enter_missing : JoinPayload → SfuServer S → Session → Outcome S
  unfolding join_room
  enter_missing payload sv s =
      let (sv', err) = create_room redis pion payload.room_id default_room_config sv in
      elim err [ some e ↦ panics sv' s | none ↦ join_room payload sv' s ]

  unfoldable pub redirect : String → SfuServer S → Session → Outcome S
  redirect addr sv s = returns sv (
      spawn_close
        (send_message json pick (redirect_message (str_append "ws://" (str_append addr "/ws"))) s))

  -- Where another node has the room, and rooms do not span nodes, the client is sent there.
  unfoldable pub route : Place → JoinPayload → SfuServer S → Session → Outcome S
  unfolding redirect enter
  route local payload sv s = enter payload sv s
  route lookup_failed payload sv s = enter payload sv s
  route (remote addr) payload sv s = redirect addr sv s

  unfoldable pub place_of : String → SfuServer S → Place
  place_of room_id sv =
      if sv.config.cluster_enabled && not sv.config.cluster_enable_cascading
      then lookup_room_node redis room_id sv
      else local

  unfoldable pub handle_join : String → SfuServer S → Session → Outcome S
  unfolding route place_of
  handle_join raw sv s = elim (json.read_join raw) [
    | none ↦ returns sv (send_error json pick "invalid join payload" invalid_payload s)
    | some payload ↦
        if str_eq payload.room_id "" || str_eq payload.peer_id ""
        then returns sv (send_error json pick "roomID and peerID are required" missing_fields s)
        else route (place_of payload.room_id sv) payload sv s
  ]

  -- An answer for a peer; the session has its room whenever it has a peer.
  unfoldable pub give_answer : PeerRef → SfuServer S → Session → Outcome S
  unfolding through
  give_answer p sv s =
      let sv' : SfuServer S = elim s.room [
        | none ↦ sv
        | some ref ↦ through redis ref (updates (PeerOps.answers pion) p.id p.address) sv
      ] in
      if pion.set_remote
      then returns sv' s
      else returns sv' (send_error json pick "failed to apply answer" invalid_payload s)

  unfoldable pub handle_answer : String → SfuServer S → Session → Outcome S
  unfolding give_answer
  handle_answer raw sv s = elim (json.read_answer raw) [
    | none ↦ returns sv (send_error json pick "invalid answer payload" invalid_payload s)
    | some payload ↦ elim s.peer [
      | none ↦ returns sv (send_error json pick "peer not joined the room" missing_fields s)
      | some p ↦ give_answer p sv s
    ]
  ]

  -- A candidate goes to pion's connection alone, and its error is not told to the client.
  unfoldable pub handle_candidate : String → SfuServer S → Session → Outcome S
  handle_candidate raw sv s = elim (json.read_candidate raw) [
    | none ↦ returns sv (send_error json pick "invalid candidate payload" invalid_payload s)
    | some payload ↦ elim s.peer [
      | none ↦ returns sv (send_error json pick "peer not joined the room" missing_fields s)
      | some p ↦ returns sv s
    ]
  ]

  unfoldable pub dispatch : Message → SfuServer S → Session → Outcome S
  unfolding handle_join handle_answer handle_candidate handle_leave
  dispatch msg sv s = elim msg.type [
    | join ↦ handle_join msg.payload sv s
    | answer ↦ handle_answer msg.payload sv s
    | candidate ↦ handle_candidate msg.payload sv s
    | leave ↦ handle_leave redis sv s
    | unknown t ↦ returns sv (send_error json pick "unknown message type" invalid_payload s)
  ]

  -- A round of `readLoop` with what the WebSocket gave, `none` for an error. The loop ends at an error, after a
  -- panic, and where the context is done, and `Run` then closes the session.
  unfoldable pub read_round : Option String → SfuServer S → Session → SfuServer S × Session × Bool
  unfolding dispatch close
  read_round input sv s = if s.cancelled then stop redis sv s else elim input [
    | none ↦ stop redis sv s
    | some data_ ↦ elim (json.read_message data_) [
      | none ↦ (sv, send_error json pick "Invalid JSON format" invalid_payload s, true)
      | some msg ↦ settle redis (dispatch msg sv s)
    ]
  ]
