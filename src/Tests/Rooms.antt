-- ===== src/Tests/Rooms.antt =====
-- The theorems on rooms.
use mephi_sfu_server_project.Common.{
  suc, ◌<◌, String, str_eq, true, false, [], none, some, length, ◌≡◌, ◌≢◌, ◌↔◌, refl, arith,
  if◌then◌else◌,
}
use mephi_sfu_server_project.Map.{lookup, insert, contains, values}
use mephi_sfu_server_project.Receiver as ReceiverDefs
use mephi_sfu_server_project.Receiver.{Receiver}
use mephi_sfu_server_project.Router.Ops as RouterOps
use mephi_sfu_server_project.Router.Subscriptions.{sender_for}
use mephi_sfu_server_project.Peer.{Peer, default_peer_config}
use mephi_sfu_server_project.Peer.Ops as PeerOps
use mephi_sfu_server_project.Peer.Serving.{Accepts}
use mephi_sfu_server_project.Room.{new_room, emit, peer_joined}
use mephi_sfu_server_project.Room.Loops as Loops
use mephi_sfu_server_project.Room.Ops as Ops
use mephi_sfu_server_project.Room.Ops.{is_full, room_full, on_receiver_added, join, leave}
use mephi_sfu_server_project.Room.Invariant.{Inv}
use mephi_sfu_server_project.Room.Invariant.History.{run, step, run-new_room-Inv}
use mephi_sfu_server_project.Room.Delivery.{join_served}
use mephi_sfu_server_project.Room.Publishing.{no_echo, publish_served}
use mephi_sfu_server_project.Room.Membership.{join_fails, join_succeeds, leave_others, leave_last}
use mephi_sfu_server_project.Tests.Data.{
  pion_ok, camera, nobody, the, room_config, alice_joins, alice_sends, both_join, both_in,
  bob_joins, room_after,
}

run-new_room-Inv_example : Inv (room_after bob_joins)
run-new_room-Inv_example = run-new_room-Inv 0 "demo" room_config true true bob_joins

alice_sends-Inv : Inv (room_after alice_sends)
alice_sends-Inv = run-new_room-Inv 0 "demo" room_config true true alice_sends

both_join-Inv : Inv (room_after both_join)
both_join-Inv = run-new_room-Inv 0 "demo" room_config true true both_join

both_in-Inv : Inv (room_after both_in)
both_in-Inv = run-new_room-Inv 0 "demo" room_config true true both_in

alice_joins-Inv : Inv (room_after alice_joins)
alice_joins-Inv = run-new_room-Inv 0 "demo" room_config true true alice_joins

all_accepted : (id : String) → Accepts pion_ok id
all_accepted id = record { makes = refl; takes = λ t. (7, refl) }

bob_is_let_in : (join pion_ok "bob" default_peer_config (room_after alice_sends)).1 ≡ none
unfolding run step join Ops.add_receiver new_room contains Ops.admit Loops.subscribe_existing values
    Loops.subscribe_others insert
bob_is_let_in = refl

abbrev sent_camera : Receiver
sent_camera = the camera (lookup "cam" (room_after alice_sends).router.receivers)

camera_there : lookup "cam" (room_after alice_sends).router.receivers ≡ some sent_camera
unfolding run step lookup Ops.add_receiver join new_room contains Ops.admit Loops.subscribe_existing
    values Loops.cascade_track Loops.subscribe_others insert RouterOps.add_receiver
camera_there = refl

camera_of_alice : str_eq sent_camera.owner_peer_id "bob" ≡ false
unfolding run step lookup Ops.add_receiver join new_room contains Ops.admit Loops.subscribe_existing
    values Loops.cascade_track Loops.subscribe_others insert RouterOps.add_receiver
    ReceiverDefs.start ReceiverDefs.set_on_packet
camera_of_alice = refl

join_served_example :
    sender_for "cam" "bob"
      (join pion_ok "bob" default_peer_config (room_after alice_sends)).0.router
    ≢ none
join_served_example =
    join_served pion_ok "bob" default_peer_config (room_after alice_sends) "cam" sent_camera
      alice_sends-Inv (all_accepted "bob") bob_is_let_in camera_there camera_of_alice

no_echo_example :
    sender_for "cam" "alice" (on_receiver_added pion_ok camera (room_after both_join)).router
    ≡ sender_for "cam" "alice" (room_after both_join).router
no_echo_example = no_echo pion_ok camera (room_after both_join) "cam" both_join-Inv

camera_present :
    lookup "cam" (room_after both_in).router.receivers
    ≡ some (the camera (lookup "cam" (room_after both_in).router.receivers))
unfolding run step lookup Ops.add_receiver join new_room contains Ops.admit insert
    Loops.subscribe_existing values Loops.cascade_track Loops.subscribe_others
    PeerOps.subscribe_to_track RouterOps.subscribe RouterOps.add_receiver
camera_present = refl

camera_known : lookup "cam" (room_after both_in).router.receivers ≢ none
camera_known e = cc (e, camera_present)

abbrev bob : Peer
bob = the nobody (lookup "bob" (room_after both_in).peers)

bob_there : lookup "bob" (room_after both_in).peers ≡ some bob
unfolding run step lookup Ops.add_receiver join new_room contains Ops.admit insert
    Loops.subscribe_existing values Loops.subscribe_others
bob_there = refl

publish_served_example :
    sender_for "cam" "bob" (on_receiver_added pion_ok camera (room_after both_in)).router ≢ none
publish_served_example =
    publish_served pion_ok all_accepted camera (room_after both_in) "bob" bob both_in-Inv
      camera_known bob_there refl

join_fails_example :
    ((join pion_ok "bob" default_peer_config (room_after both_in)).1 ≢ none
      → (join pion_ok "bob" default_peer_config (room_after both_in)).0 ≡ room_after both_in)
    × (((join pion_ok "bob" default_peer_config (room_after both_in)).1 ≡ none) ↔ (
        (is_full (room_after both_in) ≡ false)
        × (lookup "bob" (room_after both_in).peers ≡ none)
        × (true ≡ true)))
    × (((join pion_ok "bob" default_peer_config (room_after both_in)).1 ≡ some room_full)
        ↔ (is_full (room_after both_in) ≡ true))
join_fails_example = join_fails pion_ok "bob" default_peer_config (room_after both_in)

join_succeeds_example :
    (lookup "bob" (room_after alice_sends).peers ≡ none)
    × ((j : String)
        → str_eq "bob" j ≡ false
        → lookup j (join pion_ok "bob" default_peer_config (room_after alice_sends)).0.peers
          ≡ lookup j (room_after alice_sends).peers)
    × (lookup "bob" (join pion_ok "bob" default_peer_config (room_after alice_sends)).0.peers
        ≢ none)
    × (length (join pion_ok "bob" default_peer_config (room_after alice_sends)).0.peers
        ≡ suc (length (room_after alice_sends).peers))
    × ((join pion_ok "bob" default_peer_config (room_after alice_sends)).0.emitted
        ≡ emit (peer_joined (room_after alice_sends).id "bob") (room_after alice_sends).emitted)
join_succeeds_example =
    join_succeeds pion_ok "bob" default_peer_config (room_after alice_sends) bob_is_let_in

two_in : 1 < length (room_after both_in).peers
unfolding run step Ops.add_receiver join new_room contains Ops.admit insert Loops.subscribe_existing
    values Loops.subscribe_others
two_in = omega arith

leave_others_example :
    ((j : String)
      → lookup j (leave "bob" (room_after both_in)).peers
        ≡ (if str_eq "bob" j then none else lookup j (room_after both_in).peers))
    × ((j q : String)
        → sender_for j q (leave "bob" (room_after both_in)).router
          ≡ (if str_eq "bob" q then none else sender_for j q (room_after both_in).router))
    × ((leave "bob" (room_after both_in)).close_once ≡ (room_after both_in).close_once)
leave_others_example = leave_others "bob" (room_after both_in) bob both_in-Inv bob_there two_in

abbrev alice : Peer
alice = the nobody (lookup "alice" (room_after alice_joins).peers)

alice_there : lookup "alice" (room_after alice_joins).peers ≡ some alice
unfolding run step lookup join new_room contains Ops.admit insert
alice_there = refl

one_in : length (room_after alice_joins).peers ≡ 1
unfolding run step join new_room contains Ops.admit insert
one_in = omega arith

still_up : (room_after alice_joins).close_once ≡ false
unfolding run step join new_room contains Ops.admit
still_up = refl

leave_last_example :
    ((leave "alice" (room_after alice_joins)).peers ≡ [])
    × ((leave "alice" (room_after alice_joins)).router.receivers ≡ [])
    × ((leave "alice" (room_after alice_joins)).router.senders ≡ [])
    × ((leave "alice" (room_after alice_joins)).cascade_bridges ≡ [])
    × ((leave "alice" (room_after alice_joins)).cancelled ≡ true)
    × ((leave "alice" (room_after alice_joins)).close_notices ≡ (
        if (room_after alice_joins).on_close
        then suc (room_after alice_joins).close_notices
        else (room_after alice_joins).close_notices))
leave_last_example =
    leave_last "alice" (room_after alice_joins) alice alice_joins-Inv alice_there one_in still_up
