-- ===== src/Room/Invariant/Notices.antt =====
-- A room tells its owner that it closed exactly once, when it closes.
use mephi_sfu_server_project.Common.{
  ℕ, String, Bool, true, false, ◌∷◌, ◌≡◌, inl, inr, arith, Bool-cases, Option-cases, if◌then◌else◌,
  length, ◌==◌,
}
use mephi_sfu_server_project.Map.{lookup, insert, delete}
use mephi_sfu_server_project.Receiver.{Receiver}
use mephi_sfu_server_project.Peer.{Peer, Pion}
use mephi_sfu_server_project.Peer.Ops as PeerOps
use mephi_sfu_server_project.Cascade.{ClusterMessage}
use mephi_sfu_server_project.Room.{Room}
use mephi_sfu_server_project.Room.Ops as Ops
use mephi_sfu_server_project.Room.Ops.{
  join, admit, close, close_if, forget_peer, on_peer_closed, close_peer, leave, peer_state_changed,
  on_receiver_added, on_receiver_removed, add_receiver, remove_receiver, add_cascade_bridge,
  remove_cascade_bridge, open_bridge, answer_offer, on_offer, handle_cluster_message,
}
use mephi_sfu_server_project.Room.Invariant.History.{
  updates, Call, joins, leaves, changes, publishes, unpublishes, forwards, bridges, unbridges,
  messages, closes, step,
}

-- The room keeps its name, and its owner is told as often as the room has closed.
pub record Told (name : String) (r : Room) : Type 0 where
  pub named : r.id ≡ name
  pub asked : r.on_close ≡ true
  pub once : r.close_notices ≡ (if r.close_once then 1 else 0)

module _ {name : String} where
  join-Told :
      (pion : Pion) (id : String) (r : Room) (config : _)
      → Told name r
      → Told name (join pion id config r).0
  unfolding join admit
  join-Told pion id r config v = ground (arith, v.named, v.asked, v.once)

  close-Told : (r : Room) → Told name r → Told name (close r)
  unfolding close
  close-Told r v = ground (arith, v.named, v.asked, v.once)

  close_if-Told : (b : Bool) (r : Room) → Told name r → Told name (close_if b r)
  close_if-Told true r v = close-Told r v
  close_if-Told false r v = v

  on_peer_closed-Told : (id : String) (r : Room) → Told name r → Told name (on_peer_closed id r)
  unfolding on_peer_closed forget_peer
  on_peer_closed-Told id r v = elim (Option-cases (lookup id r.peers)) [
    | inl e ↦ rw (e, on_peer_closed) v
    | inr (p, e) ↦
        let w : Told name (record (forget_peer id r) { departed = p ∷ r.departed }) = record {
          named = v.named;
          asked = v.asked;
          once = v.once;
        } in
        rw (e, on_peer_closed) (close_if-Told (length (delete id r.peers) == 0) _ w)
  ]

  close_peer-Told : (p : Peer) (r : Room) → Told name r → Told name (close_peer p r)
  unfolding close_peer
  close_peer-Told p r v =
      let c = PeerOps.close r.router p in
      let w : Told name (record r { router = c.0; departed = c.1 ∷ r.departed }) = record {
        named = v.named;
        asked = v.asked;
        once = v.once;
      } in
      elim (Bool-cases c.2) [
        | inl e ↦ rw (e, close_peer) (on_peer_closed-Told p.id _ w)
        | inr e ↦ rw (e, close_peer) w
      ]

  leave-Told : (id : String) (r : Room) → Told name r → Told name (leave id r)
  unfolding leave forget_peer
  leave-Told id r v = elim (Option-cases (lookup id r.peers)) [
    | inl e ↦ rw (e, leave) v
    | inr (p, e) ↦
        let w : Told name (forget_peer id r) = record {
          named = v.named;
          asked = v.asked;
          once = v.once;
        } in
        rw (e, leave) (close_if-Told (length (delete id r.peers) == 0) _ (close_peer-Told p _ w))
  ]

  peer_state_changed-Told :
      (c : PeerOps.ConnectionState) (id : String) (r : Room)
      → Told name r
      → Told name (peer_state_changed c id r)
  unfolding peer_state_changed
  peer_state_changed-Told c id r v = elim (Option-cases (lookup id r.peers)) [
    | inl e ↦ rw (e, peer_state_changed) v
    | inr (p, e) ↦
        let s = PeerOps.on_state_change c r.router p in
        let w : Told name (record r { router = s.0; peers = insert id s.1 r.peers }) = record {
          named = v.named;
          asked = v.asked;
          once = v.once;
        } in
        elim (Bool-cases s.2) [
          | inl b ↦ rw (e, peer_state_changed, b) (on_peer_closed-Told id _ w)
          | inr b ↦ rw (e, peer_state_changed, b) w
        ]
  ]

  add_receiver-Told :
      (pion : Pion) (recv : Receiver) (r : Room)
      → Told name r
      → Told name (add_receiver pion recv r)
  unfolding add_receiver on_receiver_added
  add_receiver-Told pion recv r v = ground (arith, v.named, v.asked, v.once)

  remove_receiver-Told :
      (pion : Pion) (t : String) (r : Room) → Told name r → Told name (remove_receiver pion t r)
  unfolding remove_receiver on_receiver_removed
  remove_receiver-Told pion t r v = ground (arith, v.named, v.asked, v.once)

  remove_cascade_bridge-Told :
      (node : String) (r : Room) → Told name r → Told name (remove_cascade_bridge node r)
  unfolding remove_cascade_bridge
  remove_cascade_bridge-Told node r v = ground (arith, v.named, v.asked, v.once)

  handle_cluster_message-Told :
      (pion : Pion) (local : String) (msg : ClusterMessage) (r : Room)
      → Told name r
      → Told name (handle_cluster_message pion local msg r).0
  unfolding handle_cluster_message on_offer open_bridge answer_offer
  handle_cluster_message-Told pion local msg r v = ground (arith, v.named, v.asked, v.once)

  with_peer-Told :
      (u : PeerOps.PeerUpdate) (id : String) (address : ℕ) (r : Room)
      → Told name r
      → Told name (Ops.with_peer u id address r)
  unfolding Ops.with_peer
  with_peer-Told u id address r v = ground (arith, v.named, v.asked, v.once)

  pub step-Told : (c : Call) (r : Room) → Told name r → Told name (step c r)
  unfolding step add_cascade_bridge
  step-Told (joins pion id config) r v = join-Told pion id r config v
  step-Told (leaves id) r v = leave-Told id r v
  step-Told (changes c id) r v = peer_state_changed-Told c id r v
  step-Told (publishes pion recv) r v = add_receiver-Told pion recv r v
  step-Told (unpublishes pion t) r v = remove_receiver-Told pion t r v
  step-Told (forwards pool t buf n) r v = record { named = v.named; asked = v.asked; once = v.once }
  step-Told (bridges node b) r v = record { named = v.named; asked = v.asked; once = v.once }
  step-Told (unbridges node) r v = remove_cascade_bridge-Told node r v
  step-Told (messages pion local msg) r v = handle_cluster_message-Told pion local msg r v
  step-Told (updates u id address) r v = with_peer-Told u id address r v
  step-Told closes r v = close-Told r v
