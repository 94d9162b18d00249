-- ===== src/Room/Invariant/Tracks.antt =====
-- The callbacks of the router, the bridges and the messages of other nodes keep the invariant of a room.
use mephi_sfu_server_project.Common.{
  String, List, Option, ◌≡◌, refl, arith, Bool-cases, Option-cases, inl, inr,
}
use mephi_sfu_server_project.Map.{Map, lookup, contains, values}
use mephi_sfu_server_project.Receiver.{Receiver}
use mephi_sfu_server_project.Router.{Router}
use mephi_sfu_server_project.Router.Ops as RouterOps
use mephi_sfu_server_project.Router.Invariant as RI
use mephi_sfu_server_project.Router.Invariant.Tracks as RT
use mephi_sfu_server_project.Peer.{Pion, Peer}
use mephi_sfu_server_project.Cascade.{
  CascadeBridge, ClusterMessage, ClusterMessageType, cascade_offer, cascade_answer,
  cascade_candidate,
}
use mephi_sfu_server_project.Room.{Room, Event}
use mephi_sfu_server_project.Room.Ops.{
  on_receiver_added, on_receiver_removed, add_receiver, remove_receiver, add_cascade_bridge,
  remove_cascade_bridge, open_bridge, answer_offer, on_offer, handle_cluster_message,
}
use mephi_sfu_server_project.Room.Invariant.{Inv}
use mephi_sfu_server_project.Room.Invariant.Loops.{
  Kept, subscribe_others-Kept, unsubscribe_others-Kept, cascade_track-Inv, cascade_existing-Inv,
  close_bridge-Inv,
}

-- Another router, other peers under the same names, other bridges and another log.
Kept-Inv :
    (r : Room) (router router' : Router) (peers : Map Peer) (bridges : Map CascadeBridge)
    (log : Option (List Event))
    → Inv r
    → Kept router r.peers peers
    → RI.Inv router'
    → Inv (record r { router = router'; peers = peers; cascade_bridges = bridges; emitted = log })
Kept-Inv r router router' peers bridges log v k w = record {
  router = w;
  distinct = k.distinct;
  members = k.members;
  capacity = λ h. ground (arith, v.capacity h, k.size);
  counted = ground (arith, v.counted, k.size);
}

-- Another router and other bridges.
pub routed-Inv :
    (r : Room) (router : Router) (bridges : Map CascadeBridge)
    → Inv r
    → RI.Inv router
    → Inv (record r { router = router; cascade_bridges = bridges })
routed-Inv r router bridges v w = record {
  router = w;
  distinct = v.distinct;
  members = v.members;
  capacity = v.capacity;
  counted = v.counted;
}

module _ (pion : Pion) where
  on_receiver_added-Inv : (recv : Receiver) (r : Room) → Inv r → Inv (on_receiver_added pion recv r)
  unfolding on_receiver_added
  on_receiver_added-Inv recv r v =
      let k =
        subscribe_others-Kept pion recv.track_id recv.owner_peer_id r.router r.peers v.router
          v.distinct v.members in
      Kept-Inv r _ _ _ _ _ v k
        (cascade_track-Inv pion recv.track_id recv.owner_peer_id _ r.cascade_bridges k.router)

  on_receiver_removed-Inv :
      (recv : Receiver) (r : Room) → Inv r → Inv (on_receiver_removed pion recv r)
  unfolding on_receiver_removed
  on_receiver_removed-Inv recv r v =
      let k =
        unsubscribe_others-Kept pion recv.track_id recv.owner_peer_id r.router r.peers v.router
          v.distinct v.members in
      Kept-Inv r _ _ _ r.cascade_bridges _ v k k.router

  pub add_receiver-Inv : (recv : Receiver) (r : Room) → Inv r → Inv (add_receiver pion recv r)
  unfolding add_receiver
  add_receiver-Inv recv r v =
      let w =
        routed-Inv r (RouterOps.add_receiver recv r.router) r.cascade_bridges v
          (RT.add_receiver-Inv recv r.router v.router) in
      elim (Bool-cases r.router.on_receiver_added) [
        | inl e ↦ simp (e, add_receiver) (on_receiver_added-Inv recv _ w)
        | inr e ↦ simp (e, add_receiver) w
      ]

  pub remove_receiver-Inv : (t : String) (r : Room) → Inv r → Inv (remove_receiver pion t r)
  unfolding remove_receiver
  remove_receiver-Inv t r v =
      let x = RouterOps.remove_receiver t r.router in
      let w = routed-Inv r x.0 r.cascade_bridges v (RT.remove_receiver-Inv t r.router v.router) in
      elim (Option-cases x.1) [
        | inl e ↦ rw (e, remove_receiver) w
        | inr (recv, e) ↦ elim (Bool-cases x.0.on_receiver_removed) [
          | inl e' ↦ simp (e, e', remove_receiver) (on_receiver_removed-Inv recv _ w)
          | inr e' ↦ simp (e, e', remove_receiver) w
        ]
      ]

  answer_offer-Inv :
      (local from : String) (r : Room) → Inv r → Inv (answer_offer pion local from r).0
  unfolding answer_offer
  answer_offer-Inv local from r v = elim (Option-cases (lookup from r.cascade_bridges)) [
    | inl e ↦ rw (e, answer_offer) v
    | inr (b, e) ↦ rw (e, answer_offer) v
  ]

  open_bridge-Inv : (local from : String) (r : Room) → Inv r → Inv (open_bridge pion local from r)
  unfolding open_bridge
  open_bridge-Inv local from r v =
      routed-Inv r _ _ v (cascade_existing-Inv pion (values r.router.receivers) r.router _ v.router)

  on_offer-Inv : (local from : String) (r : Room) → Inv r → Inv (on_offer pion local from r).0
  unfolding on_offer
  on_offer-Inv local from r v = elim (Bool-cases (contains from r.cascade_bridges)) [
    | inl e ↦ rw (e, on_offer) (answer_offer-Inv local from r v)
    | inr e ↦ elim (Bool-cases pion.new_peer_connection) [
      | inl e' ↦
          simp (e, e', on_offer) (answer_offer-Inv local from _ (open_bridge-Inv local from r v))
      | inr e' ↦ simp (e, e', on_offer) v
    ]
  ]

  handle_case :
      (local : String) (kind : ClusterMessageType) (msg : ClusterMessage) (r : Room)
      → msg.type ≡ kind
      → Inv r
      → Inv (handle_cluster_message pion local msg r).0
  unfolding handle_cluster_message
  handle_case local cascade_offer msg r e v =
      rw (e, handle_cluster_message) (on_offer-Inv local msg.from_node_id r v)
  handle_case local cascade_answer msg r e v = rw (e, handle_cluster_message) v
  handle_case local cascade_candidate msg r e v = rw (e, handle_cluster_message) v

  pub handle_cluster_message-Inv :
      (local : String) (msg : ClusterMessage) (r : Room)
      → Inv r
      → Inv (handle_cluster_message pion local msg r).0
  handle_cluster_message-Inv local msg r v = handle_case local msg.type msg r refl v

pub add_cascade_bridge-Inv :
    (node : String) (b : CascadeBridge) (r : Room) → Inv r → Inv (add_cascade_bridge node b r)
unfolding add_cascade_bridge
add_cascade_bridge-Inv node b r v = routed-Inv r r.router _ v v.router

pub remove_cascade_bridge-Inv :
    (node : String) (r : Room) → Inv r → Inv (remove_cascade_bridge node r)
unfolding remove_cascade_bridge
remove_cascade_bridge-Inv node r v = elim (Option-cases (lookup node r.cascade_bridges)) [
  | inl e ↦ rw (e, remove_cascade_bridge) v
  | inr (b, e) ↦
      rw (e, remove_cascade_bridge) (routed-Inv r _ _ v (close_bridge-Inv r.router b v.router))
]
