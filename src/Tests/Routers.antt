-- ===== src/Tests/Routers.antt =====
-- The theorems on routers, senders, receivers and peers.
use mephi_sfu_server_project.Common.{
  String, str_eq, true, false, List, [], ◌∷◌, ◌++◌, none, some, ◌≡◌, ◌⊎◌, refl, arith,
  if◌then◌else◌,
}
use mephi_sfu_server_project.Map.{lookup, insert}
use mephi_sfu_server_project.Sender.{
  Sender, SenderPacket, new_sender, start, new_sender_packet, default_sender_config, write, round,
  receive, running, write_loop_round, run, act, payload, fill_packet, write_rtp,
}
use mephi_sfu_server_project.Sender as SenderDefs
use mephi_sfu_server_project.Sender.Delivery.{stream, accepted, run-stream}
use mephi_sfu_server_project.Sender.Accounting as Accounting
use mephi_sfu_server_project.Sender.Accounting.{run-new_sender-Inv}
use mephi_sfu_server_project.Receiver.{Receiver, packet, eof}
use mephi_sfu_server_project.Receiver.Reading.{
  read_all, forwards, counted, packets_before_end, read_all-forwards,
}
use mephi_sfu_server_project.Router.{Router, new_router}
use mephi_sfu_server_project.Router.Ops.{subscribe, forward, add_receiver}
use mephi_sfu_server_project.Router.Invariant as RouterInvariant
use mephi_sfu_server_project.Router.Subscriptions.{sender_for}
use mephi_sfu_server_project.Router.Refinement.{view, meanings, view-run-new_router}
use mephi_sfu_server_project.Router.Forwarding as Forwarding
use mephi_sfu_server_project.Router.Forwarding.{
  after_write, sender_for-forward, run-new_router-Inv, adds, subscribes,
  forwards as forwards_packet, removes,
}
use mephi_sfu_server_project.Peer.{begin_negotiation, offer_negotiation, stops}
use mephi_sfu_server_project.Peer.Ops.{subscribe_to_track, no_rtp_sender}
use mephi_sfu_server_project.Peer.Lifecycle.{subscribe_to_track_rollback}
use mephi_sfu_server_project.Peer.Negotiation.{
  System, here, next, enters, enter, Exclusive, Reach-Exclusive, request_not_lost,
}
use mephi_sfu_server_project.Tests.Data.{pion_ok, pion_refusing, camera, nobody, the}

abbrev camera_router : Router
camera_router = add_receiver camera (new_router false)

abbrev known_camera : Receiver
known_camera = the camera (lookup "cam" camera_router.receivers)

camera_published : lookup "cam" camera_router.receivers ≡ some known_camera
unfolding add_receiver lookup insert new_router
camera_published = refl

bob_new : sender_for "cam" "bob" camera_router ≡ none
unfolding add_receiver lookup new_router insert
bob_new = refl

run-new_router-Inv_example : RouterInvariant.Inv (
    Forwarding.run
      (adds camera ∷ subscribes true "cam" "bob" default_sender_config ∷ removes "cam" ∷ [])
      (new_router true))
run-new_router-Inv_example =
    run-new_router-Inv true
      (adds camera ∷ subscribes true "cam" "bob" default_sender_config ∷ removes "cam" ∷ [])

view-run-new_router_example :
    view (
      Forwarding.run
        (adds camera ∷ subscribes true "cam" "bob" default_sender_config ∷ removes "cam" ∷ [])
        (new_router true))
    ≡ meanings
        (adds camera ∷ subscribes true "cam" "bob" default_sender_config ∷ removes "cam" ∷ [])
        (record { published = λ t. false; subscribed = λ t p. false })
view-run-new_router_example =
    view-run-new_router true
      (adds camera ∷ subscribes true "cam" "bob" default_sender_config ∷ removes "cam" ∷ [])

abbrev served_router : Router
served_router = (subscribe true "cam" "bob" default_sender_config camera_router).0

sender_for-forward_example :
    sender_for "cam" "bob" (forward (λ q. new_sender_packet) "cam" (1 ∷ 2 ∷ []) 2 served_router) ≡ (
      if str_eq "cam" "cam"
      then after_write new_sender_packet (1 ∷ 2 ∷ []) 2 (sender_for "cam" "bob" served_router)
      else sender_for "cam" "bob" served_router)
sender_for-forward_example =
    sender_for-forward (λ q. new_sender_packet) "cam" (1 ∷ 2 ∷ []) 2 "cam" "bob" served_router

abbrev to_bob : Sender
to_bob = start (new_sender "bob" "video/VP8" "cam" "s1" default_sender_config)

abbrev two_writes : List SenderDefs.Action
two_writes =
    write new_sender_packet (1 ∷ 2 ∷ []) 2
    ∷ round (receive true)
    ∷ write new_sender_packet (3 ∷ []) 1
    ∷ []

still_running : (run two_writes to_bob).loop ≡ running
unfolding run write_rtp write_loop_round start new_sender
still_running = refl

run-stream_example : stream (run two_writes to_bob) ≡ stream to_bob ++ accepted two_writes to_bob
run-stream_example =
    run-stream two_writes to_bob ((refl, omega arith), (tt, ((refl, omega arith), tt)))
      still_running

run-new_sender-Inv_example :
    Accounting.Inv
      (run two_writes (start (new_sender "bob" "video/VP8" "cam" "s1" default_sender_config)))
run-new_sender-Inv_example =
    run-new_sender-Inv "bob" "video/VP8" "cam" "s1" default_sender_config two_writes

abbrev reading : Receiver
reading = record camera { on_packet = some "cam"; read_loop = running }

read_all-forwards_example :
    ((read_all (packet (1 ∷ []) ∷ eof ∷ packet (2 ∷ []) ∷ []) reading).1
      ≡ forwards "cam" (packets_before_end (packet (1 ∷ []) ∷ eof ∷ packet (2 ∷ []) ∷ [])))
    × ((
      (read_all (packet (1 ∷ []) ∷ eof ∷ packet (2 ∷ []) ∷ []) reading).0.packets_received,
      (read_all (packet (1 ∷ []) ∷ eof ∷ packet (2 ∷ []) ∷ []) reading).0.bytes_received,
    )
        ≡ counted (packets_before_end (packet (1 ∷ []) ∷ eof ∷ packet (2 ∷ []) ∷ [])) reading)
read_all-forwards_example =
    read_all-forwards (packet (1 ∷ []) ∷ eof ∷ packet (2 ∷ []) ∷ []) reading refl refl refl

nobody_new : sender_for "cam" "nobody" camera_router ≡ none
unfolding add_receiver lookup new_router insert
nobody_new = refl

subscribe_to_track_rollback_example :
    ((subscribe_to_track pion_refusing "cam" camera_router nobody).2 ≡ some no_rtp_sender)
    × ((subscribe_to_track pion_refusing "cam" camera_router nobody).1 ≡ nobody)
    × ((j q : String)
        → sender_for j q (subscribe_to_track pion_refusing "cam" camera_router nobody).0
          ≡ sender_for j q camera_router)
subscribe_to_track_rollback_example =
    subscribe_to_track_rollback pion_refusing "cam" camera_router nobody camera_published nobody_new
      refl refl

abbrev at_rest : System
at_rest = record { peer = nobody; rounds = [] }

Reach-Exclusive_example : Exclusive (enter (enter at_rest))
Reach-Exclusive_example =
    Reach-Exclusive (next (next here (enters at_rest)) (enters (enter at_rest))) refl

request_not_lost_example :
    ((begin_negotiation (record nobody { negotiation_pending = true })).1 ≡ stops)
    × (((offer_negotiation pion_ok true
            (begin_negotiation
              (record nobody { negotiation_pending = true })).0).renegotiation_needed
          ≡ true)
        ⊎ ((offer_negotiation pion_ok true
              (begin_negotiation (record nobody { negotiation_pending = true })).0).spawned
            ≡ 1))
request_not_lost_example =
    request_not_lost pion_ok true (record nobody { negotiation_pending = true }) refl refl
