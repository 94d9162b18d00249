-- ===== src/Tests/Sessions.antt =====
-- The theorems on the sessions of a node.
use mephi_sfu_server_project.Common.{
  ◌≢◌, eq_iff, arith, if◌then◌else◌, String, str_eq, true, false, List, [], ◌∷◌, none, some, ◌≡◌,
  refl,
}
use mephi_sfu_server_project.Map.{lookup}
use mephi_sfu_server_project.Room.{Room, new_room}
use mephi_sfu_server_project.Peer.{Pion}
use mephi_sfu_server_project.Server.{SfuServer, new_sfu_server}
use mephi_sfu_server_project.Server.Ops.{at_limit}
use mephi_sfu_server_project.Server.Invariant as ServerInvariant
use mephi_sfu_server_project.Signal.Message.{Json, JoinPayload, join, leave}
use mephi_sfu_server_project.Signal.Session.{Session, RoomRef, PeerRef, new_session}
use mephi_sfu_server_project.Signal.Session.Handlers.{handle_join, place_of}
use mephi_sfu_server_project.Signal.Session.Outcomes.{Deserted, IsHere, IsFull, handle_join_alone}
use mephi_sfu_server_project.Signal.Node.{
  Node, new_node, Work, arrives, upgrades, reads, writes, work_all,
}
use mephi_sfu_server_project.Signal.Node.Invariant as NodeInvariant
use mephi_sfu_server_project.Signal.Node.Invariant.{work_all-new_node-Inv}
use mephi_sfu_server_project.Tests.Data.{pion_ok, redis, server_config, the, room_config}

abbrev demo_payload : JoinPayload
demo_payload = record { room_id = "demo"; peer_id = "alice" }

-- Every text is a `join` of the room, but for one that is a `leave`.
abbrev json : Json
json = record {
  read_message =
      λ text. some (record { type = if str_eq text "leave" then leave else join; payload = text });
  read_join = λ text. some demo_payload;
  read_answer = λ text. none;
  read_candidate = λ text. none;
  read_description = λ text. none;
  read_candidate_init = λ text. none;
  encode = λ msg. some "message";
}

abbrev story : List Work
story =
    arrives
    ∷ upgrades "a" true
    ∷ arrives
    ∷ upgrades "b" true
    ∷ reads pion_ok json true (some "join") "a"
    ∷ reads pion_ok json true (some "join") "b"
    ∷ writes true true "b"
    ∷ reads pion_ok json true none "a"
    ∷ []

work_all-new_node-Inv_example :
    NodeInvariant.Inv (work_all redis story (new_node server_config [] 5))
work_all-new_node-Inv_example = work_all-new_node-Inv redis server_config [] 5 story

abbrev fresh_server : SfuServer (List (String × String))
fresh_server = new_sfu_server server_config []

abbrev pion_down : Pion
pion_down = record pion_ok { new_peer_connection = false }

no_rooms : lookup "demo" fresh_server.rooms ≡ none
unfolding new_sfu_server lookup
no_rooms = refl

up : fresh_server.closed ≡ false
unfolding new_sfu_server
up = refl

below : ¬ IsFull fresh_server
unfolding new_sfu_server
below full = omega (arith, full.1)

named : demo_payload.room_id ≢ ""
named = ground (arith, eq_iff "demo" "")

peer_named : demo_payload.peer_id ≢ ""
peer_named = ground (arith, eq_iff "alice" "")

here : IsHere (place_of redis pion_down json true "demo" fresh_server)
unfolding place_of new_sfu_server mephi_sfu_server_project.Server.Ops.lookup_room_node
here = tt

handle_join_alone_example :
    Deserted "demo" (handle_join redis pion_down json true "join" fresh_server new_session)
handle_join_alone_example =
    handle_join_alone redis pion_down json true demo_payload "join" fresh_server new_session refl
      named peer_named here no_rooms up below refl

-- A node where a client has joined.
abbrev joined : Node (List (String × String))
joined =
    work_all redis (arrives ∷ upgrades "a" true ∷ reads pion_ok json true (some "join") "a" ∷ [])
      (new_node server_config [] 5)

abbrev session_a : Session
session_a = elim (lookup "a" joined.connections) [ none ↦ new_session | some c ↦ c.session ]

abbrev no_room : Room
no_room = new_room 0 "none" room_config false false

abbrev demo_room : Room
demo_room = the no_room (lookup "demo" joined.server.rooms)

abbrev ref : RoomRef
ref = record { id = "demo"; address = 0 }

abbrev alice : PeerRef
alice = record { id = "alice"; address = 0 }

-- Two handlers that pass the check before either counts its connection exceed a limit of one.
two_at_once :
    (work_all redis
      (arrives ∷ arrives ∷ upgrades "a" true ∷ upgrades "b" true ∷ [])
      (new_node server_config [] 1)).active_conns
    ≡ 2
unfolding work_all new_node mephi_sfu_server_project.Map.contains
    mephi_sfu_server_project.Map.insert
two_at_once = refl
