-- ===== src/Room/Invariant/History.antt =====
-- Histories of a room: every call that changes one, in any order.
use mephi_sfu_server_project.Common.{
  none, some, Option-cases, Bool-cases, inl, inr, arith, ◌==◌, ℕ, String, Bool, List, [], ◌∷◌,
}
use mephi_sfu_server_project.Sender.{SenderPacket}
use mephi_sfu_server_project.Receiver.{Receiver}
use mephi_sfu_server_project.Router.Ops as RouterOps
use mephi_sfu_server_project.Router.Invariant.Whole as Whole
use mephi_sfu_server_project.Peer.{Peer, Pion, send, PeerConfig}
use mephi_sfu_server_project.Peer.Ops as PeerOps
use mephi_sfu_server_project.Cascade.{CascadeBridge, ClusterMessage}
use mephi_sfu_server_project.Room.{Room, RoomConfig, new_room}
use mephi_sfu_server_project.Room.Ops as Ops
use mephi_sfu_server_project.Map.{lookup}
use mephi_sfu_server_project.Map.Laws.{insert-Distinct}
use mephi_sfu_server_project.Map.Total.{length-insert_old}
use mephi_sfu_server_project.Peer.Lifecycle.{negotiate-keeps}
use mephi_sfu_server_project.Room.Invariant.{Inv, Member}
use mephi_sfu_server_project.Room.Invariant.Keep.{
  new_room-Inv, join-Inv, insert-Members, lookup-Member,
}
use mephi_sfu_server_project.Room.Invariant.Leaving.{close-Inv, leave-Inv, peer_state_changed-Inv}
use mephi_sfu_server_project.Room.Invariant.Tracks.{
  add_receiver-Inv, remove_receiver-Inv, handle_cluster_message-Inv, add_cascade_bridge-Inv,
  remove_cascade_bridge-Inv, routed-Inv,
}

pub data Call : Type 0 where
  joins : Pion → String → PeerConfig → Call
  leaves : String → Call
  changes : PeerOps.ConnectionState → String → Call
  publishes : Pion → Receiver → Call
  unpublishes : Pion → String → Call
  forwards : (String → SenderPacket) → String → List ℕ → ℕ → Call
  bridges : String → CascadeBridge → Call
  unbridges : String → Call
  messages : Pion → String → ClusterMessage → Call
  updates : PeerOps.PeerUpdate → String → ℕ → Call
  closes : Call

unfoldable pub step : Call → Room → Room
step (joins pion id config) r = (Ops.join pion id config r).0
step (leaves id) r = Ops.leave id r
step (changes c id) r = Ops.peer_state_changed c id r
step (publishes pion recv) r = Ops.add_receiver pion recv r
step (unpublishes pion t) r = Ops.remove_receiver pion t r
step (forwards pool t buf n) r = record r { router = RouterOps.forward pool t buf n r.router }
step (bridges node b) r = Ops.add_cascade_bridge node b r
step (unbridges node) r = Ops.remove_cascade_bridge node r
step (messages pion local msg) r = (Ops.handle_cluster_message pion local msg r).0
step (updates u id address) r = Ops.with_peer u id address r
step closes r = Ops.close r

unfoldable pub run : List Call → Room → Room
unfolding step
run [] r = r
run (c ∷ rest) r = run rest (step c r)

update_peer-Member :
    (u : PeerOps.PeerUpdate) (id : String) (p : Peer)
    → Member id p
    → Member id (PeerOps.update_peer u p)
unfolding PeerOps.update_peer PeerOps.handle_answer PeerOps.on_ice_candidate send
update_peer-Member PeerOps.listens id p m = record {
  named = m.named;
  reports = m.reports;
  live = m.live;
}
update_peer-Member (PeerOps.answers pion) id p m = ground (arith, m.named, m.reports, m.live)
update_peer-Member (PeerOps.negotiates pion) id p m =
    ground (arith, m.named, m.reports, m.live, negotiate-keeps pion p)
update_peer-Member (PeerOps.gathers none) id p m = m
update_peer-Member (PeerOps.gathers (some json)) id p m = ground (arith, m.named, m.reports, m.live)

with_peer-Inv :
    (u : PeerOps.PeerUpdate) (id : String) (address : ℕ) (r : Room)
    → Inv r
    → Inv (Ops.with_peer u id address r)
unfolding Ops.with_peer
with_peer-Inv u id address r v = elim (Option-cases (lookup id r.peers)) [
  | inl e ↦ rw (e, Ops.with_peer) v
  | inr (p, e) ↦ elim (Bool-cases (p.address == address)) [
    | inl same ↦
        let p' = PeerOps.update_peer u p in
        rw (e, Ops.with_peer, same)
          (record {
            router = v.router;
            distinct = insert-Distinct id p' r.peers v.distinct;
            members =
                insert-Members id p' r.peers
                  (update_peer-Member u id p (lookup-Member id r.peers p v.members e)) v.members;
            capacity = λ h. ground (arith, v.capacity h, length-insert_old id p' p r.peers e);
            counted = ground (arith, v.counted, length-insert_old id p' p r.peers e);
          })
    | inr other ↦ rw (e, Ops.with_peer, other) v
  ]
]

pub step-Inv : (c : Call) (r : Room) → Inv r → Inv (step c r)
unfolding step
step-Inv (joins pion id config) r v = join-Inv pion id config r v
step-Inv (leaves id) r v = leave-Inv id r v
step-Inv (changes c id) r v = peer_state_changed-Inv c id r v
step-Inv (publishes pion recv) r v = add_receiver-Inv pion recv r v
step-Inv (unpublishes pion t) r v = remove_receiver-Inv pion t r v
step-Inv (forwards pool t buf n) r v =
    routed-Inv r _ r.cascade_bridges v (Whole.forward-Inv pool buf n t r.router v.router)
step-Inv (bridges node b) r v = add_cascade_bridge-Inv node b r v
step-Inv (unbridges node) r v = remove_cascade_bridge-Inv node r v
step-Inv (messages pion local msg) r v = handle_cluster_message-Inv pion local msg r v
step-Inv (updates u id address) r v = with_peer-Inv u id address r v
step-Inv closes r v = close-Inv r v

pub run-Inv : (calls : List Call) (r : Room) → Inv r → Inv (run calls r)
unfolding run
run-Inv [] r v = v
run-Inv (c ∷ rest) r v = run-Inv rest (step c r) (step-Inv c r v)

-- After any calls on a new room: its router is well-formed; each member stands once, under its own name,
-- live and with the callback of the room; the members are within the limit of the room, if it has one; and
-- the gauge of active peers is their number.
pub run-new_room-Inv :
    (address : ℕ) (id : String) (config : RoomConfig) (has_metrics has_kafka : Bool)
    (calls : List Call)
    → Inv (run calls (new_room address id config has_metrics has_kafka))
run-new_room-Inv address id config has_metrics has_kafka calls =
    run-Inv calls _ (new_room-Inv address id config has_metrics has_kafka)
