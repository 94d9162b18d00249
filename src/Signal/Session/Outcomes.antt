-- ===== src/Signal/Session/Outcomes.antt =====
-- How a session enters a room and how it goes.
use mephi_sfu_server_project.Common.{
  String, str_eq, eq_refl, eq_iff, ◌<◌, ◌≤◌, length, ◌||◌, Bool, true, false, [], Option, none,
  some, ◌≡◌, ◌≢◌, ◌↔◌, sym, subst, arith, Option-cases, inl, inr,
}
use mephi_sfu_server_project.Map.{lookup}
use mephi_sfu_server_project.Map.Laws.{contains-lookup, lookup-insert}
use mephi_sfu_server_project.Peer.{Pion, default_peer_config}
use mephi_sfu_server_project.Cluster.{Redis}
use mephi_sfu_server_project.Room.{Room, default_room_config}
use mephi_sfu_server_project.Room.Ops as RoomOps
use mephi_sfu_server_project.Room.Membership.{join_fails}
use mephi_sfu_server_project.Server.{SfuServer}
use mephi_sfu_server_project.Server.Ops.{
  get_or_create_room, create_room, join_cluster, make_room, place_room, guest_room, at_limit, Place,
  local, lookup_failed, remote,
}
use mephi_sfu_server_project.Server.Invariant as ServerInvariant
use mephi_sfu_server_project.Signal.Message.{Json, JoinPayload}
use mephi_sfu_server_project.Signal.Session.{Session}
use mephi_sfu_server_project.Signal.Session.Handlers.{
  handle_join, route, place_of, Outcome, returns, panics, join_room, enter,
}

abbrev pub panicked : {S : Type 0} → Outcome S → Bool
panicked (returns sv s) = false
panicked (panics sv s) = true

-- The client is not sent to another node.
abbrev pub IsHere : Place → Type 0
IsHere local = Unit
IsHere lookup_failed = Unit
IsHere (remote addr) = ⊥

-- There is a limit of rooms, and no fewer rooms.
abbrev pub IsFull : {S : Type 0} → SfuServer S → Type 0
IsFull sv = (0 < sv.config.max_rooms) × (sv.config.max_rooms ≤ length sv.rooms)

at_limit-IsFull : {S : Type 0} (sv : SfuServer S) → (at_limit sv ≡ true) ↔ IsFull sv
at_limit-IsFull sv = ground arith

-- A room under a name, if there is one, has no member under another.
abbrev pub Left : String → Option Room → Type 0
Left id none = Unit
Left id (some room) = lookup id room.peers ≡ none

-- A room is there, without members.
abbrev Bare : Option Room → Type 0
Bare none = ⊥
Bare (some room) = room.peers ≡ []

-- The outcome is a return, and the room under a name has no members.
abbrev pub Deserted : {S : Type 0} → String → Outcome S → Type 0
Deserted id (panics sv s) = ⊥
Deserted id (returns sv s) = Bare (lookup id sv.rooms)

module _ {S : Type 0} (redis : Redis S) where
  module _ (pion : Pion) (json : Json) (pick : Bool) (payload : JoinPayload) where
    -- The cluster gives a new room no members.
    join_cluster-peers :
        (room : Room) (sv : SfuServer S) → (join_cluster redis pion room sv).0.peers ≡ room.peers
    unfolding join_cluster place_room guest_room RoomOps.add_cascade_bridge
    join_cluster-peers room sv = ground arith

    -- Where no connection is made, `Join` leaves the room as it is, whatever the reason.
    join_room-Deserted :
        (room : Room) (sv : SfuServer S) (s : Session)
        → lookup payload.room_id sv.rooms ≡ some room
        → room.peers ≡ []
        → pion.new_peer_connection ≡ false
        → Deserted payload.room_id (join_room redis pion json pick payload sv s)
    unfolding join_room
    join_room-Deserted room sv s e alone down =
        let was = (join_fails pion payload.peer_id default_peer_config room).1 in
        elim (Option-cases (RoomOps.join pion payload.peer_id default_peer_config room).1) [
          | inl ok ↦ ground (arith, down, (was.0 ok).2)
          | inr (err, bad) ↦ rw (e, join_room, bad) (subst Bare (sym e) alone)
        ]

    enter_alone :
        (sv : SfuServer S) (s : Session)
        → lookup payload.room_id sv.rooms ≡ none
        → sv.closed ≡ false
        → at_limit sv ≡ false
        → pion.new_peer_connection ≡ false
        → Deserted payload.room_id (enter redis pion json pick payload sv s)
    unfolding enter get_or_create_room create_room make_room
    enter_alone sv s absent up below down =
        let room =
          (join_cluster redis pion (make_room payload.room_id default_room_config sv) sv).0 in
        let g = get_or_create_room redis pion payload.room_id default_room_config sv in
        let ok : g.1 ≡ none =
          ground (arith, up, below, absent, contains-lookup payload.room_id sv.rooms) in
        let there : lookup payload.room_id g.0.rooms ≡ some room = ground (
          arith,
          up,
          below,
          absent,
          contains-lookup payload.room_id sv.rooms,
          lookup-insert payload.room_id payload.room_id room sv.rooms,
          eq_refl payload.room_id,
        ) in
        rw (ok, enter)
          (join_room-Deserted room g.0 s there
            (join_cluster-peers (make_room payload.room_id default_room_config sv) sv) down)

    route_alone :
        (place : Place) (sv : SfuServer S) (s : Session)
        → IsHere place
        → Deserted payload.room_id (enter redis pion json pick payload sv s)
        → Deserted payload.room_id (route redis pion json pick place payload sv s)
    unfolding route
    route_alone local sv s here d = d
    route_alone lookup_failed sv s here d = d
    route_alone (remote addr) sv s here d = absurd here

    -- Where pion makes no connection, a `join` with both names, of a room that is not there and that the cluster does
    -- not place on another node, on a server that is neither closed nor full, returns, and leaves a room without
    -- members in the registry.
    pub handle_join_alone :
        (raw : String) (sv : SfuServer S) (s : Session)
        → json.read_join raw ≡ some payload
        → payload.room_id ≢ ""
        → payload.peer_id ≢ ""
        → IsHere (place_of redis pion json pick payload.room_id sv)
        → lookup payload.room_id sv.rooms ≡ none
        → sv.closed ≡ false
        → ¬ IsFull sv
        → pion.new_peer_connection ≡ false
        → Deserted payload.room_id (handle_join redis pion json pick raw sv s)
    unfolding handle_join
    handle_join_alone raw sv s e room_named peer_named here absent up below down =
        let named : (str_eq payload.room_id "" || str_eq payload.peer_id "") ≡ false =
          ground
            (arith, eq_iff payload.room_id "", eq_iff payload.peer_id "", room_named, peer_named) in
        let open_to : at_limit sv ≡ false = ground (arith, below, at_limit-IsFull sv) in
        rw (e, handle_join, named)
          (route_alone (place_of redis pion json pick payload.room_id sv) sv s here
            (enter_alone sv s absent up open_to down))
