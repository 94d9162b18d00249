-- ===== src/Room/Ops.antt =====
-- The operations of room.go.
use mephi_sfu_server_project.Common.{
  ℕ, suc, String, Bool, true, false, ◌&&◌, [], ◌∷◌, ◌++◌, Option, none, some, length, if◌then◌else◌,
  ltb, leb, ◌==◌,
}
use mephi_sfu_server_project.Map.{lookup, insert, delete, contains, values}
use mephi_sfu_server_project.Receiver.{Receiver, kind_string}
use mephi_sfu_server_project.Router.Ops as RouterOps
use mephi_sfu_server_project.Peer.{Peer, PeerConfig, Pion, new_peer}
use mephi_sfu_server_project.Peer.Ops as PeerOps
use mephi_sfu_server_project.Cascade
use mephi_sfu_server_project.Cascade.{
  CascadeBridge, ClusterMessage, ClusterMessageType, cascade_offer, cascade_answer,
  cascade_candidate,
}
use mephi_sfu_server_project.Room.{
  Room, emit, count_joined, count_left, peer_joined, peer_left, track_published, track_unpublished,
}
use mephi_sfu_server_project.Room.Loops.{
  subscribe_existing, subscribe_others, unsubscribe_others, cascade_track, cascade_existing,
  close_peers, close_bridges,
}

pub data JoinError : Type 0 where
  room_full peer_already_joined no_connection : JoinError

abbrev pub is_full : Room → Bool
is_full r = ltb 0 r.config.max_peers && leb r.config.max_peers (length r.peers)

-- The new peer enters the map, and is subscribed to the tracks that are there.
unfoldable pub admit : Pion → String → PeerConfig → Room → Room
unfolding new_peer PeerOps.set_on_close
admit pion id config r =
    let p = PeerOps.set_on_close (new_peer r.admitted id config) in
    let (router, p') = subscribe_existing pion (values r.router.receivers) r.router p in
    record r {
      router = router;
      peers = insert id p' r.peers;
      emitted = emit (peer_joined r.id id) r.emitted;
      metrics = count_joined r.metrics;
      admitted = suc r.admitted;
    }

unfoldable pub join : Pion → String → PeerConfig → Room → Room × Option JoinError
join pion id config r =
    if is_full r
    then (r, some room_full)
    else if contains id r.peers
    then (r, some peer_already_joined)
    else if pion.new_peer_connection
    then (admit pion id config r, none)
    else (r, some no_connection)

-- `Close`. The peers' callbacks find the map already empty, so `onPeerClosed` returns at once.
unfoldable pub close : Room → Room
close r =
    if r.close_once
    then r
    else (let (router, closed) = close_peers r.router r.peers in
        record r {
          close_once = true;
          peers = [];
          router = RouterOps.close (close_bridges router r.cascade_bridges);
          cascade_bridges = [];
          cancelled = true;
          metrics = count_left (length r.peers) r.metrics;
          departed = closed ++ r.departed;
          close_notices = if r.on_close then suc r.close_notices else r.close_notices;
        })

-- `if isEmpty { r.Close() }`
abbrev pub close_if : Bool → Room → Room
close_if b r = if b then close r else r

-- A peer leaves the map: the event and the gauge.
unfoldable pub forget_peer : String → Room → Room
forget_peer id r = record r {
  peers = delete id r.peers;
  emitted = emit (peer_left r.id id) r.emitted;
  metrics = count_left 1 r.metrics;
}

-- `onPeerClosed`; the peer itself has been closed by its caller.
unfoldable pub on_peer_closed : String → Room → Room
unfolding forget_peer
on_peer_closed id r = elim (lookup id r.peers) [
  | none ↦ r
  | some p ↦
      let q = forget_peer id r in
      close_if (length q.peers == 0) (record q { departed = p ∷ q.departed })
]

-- `peer.Close()` in `Leave`, with the callback that it runs.
unfoldable pub close_peer : Peer → Room → Room
unfolding on_peer_closed
close_peer p r =
    let (router, p', called) = PeerOps.close r.router p in
    let q = record r { router = router; departed = p' ∷ r.departed } in
    if called then on_peer_closed p.id q else q

unfoldable pub leave : String → Room → Room
unfolding forget_peer close_peer
leave id r = elim (lookup id r.peers) [
  | none ↦ r
  | some p ↦ let q = forget_peer id r in close_if (length q.peers == 0) (close_peer p q)
]

-- The state of a peer's connection changes; a peer that closes by it runs the callback of the room.
unfoldable pub peer_state_changed : PeerOps.ConnectionState → String → Room → Room
unfolding on_peer_closed
peer_state_changed c id r = elim (lookup id r.peers) [
  | none ↦ r
  | some p ↦
      let (router, p', called) = PeerOps.on_state_change c r.router p in
      let q = record r { router = router; peers = insert id p' r.peers } in
      if called then on_peer_closed id q else q
]

-- A call on a peer through its pointer. A peer that has left the room is out of its reach, and so is one that
-- has taken its name since.
unfoldable pub with_peer : PeerOps.PeerUpdate → String → ℕ → Room → Room
with_peer u id address r = elim (lookup id r.peers) [
  | none ↦ r
  | some p ↦
      if p.address == address
      then record r { peers = insert id (PeerOps.update_peer u p) r.peers }
      else r
]

-- The callback of the router for a new track.
unfoldable pub on_receiver_added : Pion → Receiver → Room → Room
on_receiver_added pion recv r =
    let (router, peers) = subscribe_others pion recv.track_id recv.owner_peer_id r.router r.peers in
    let (router', bridges) =
      cascade_track pion recv.track_id recv.owner_peer_id router r.cascade_bridges in
    record r {
      router = router';
      peers = peers;
      cascade_bridges = bridges;
      emitted =
          emit
            (track_published r.id recv.owner_peer_id recv.track_id recv.stream_id
              (kind_string recv.track_kind))
            r.emitted;
    }

-- The callback of the router for a track that ended.
unfoldable pub on_receiver_removed : Pion → Receiver → Room → Room
on_receiver_removed pion recv r =
    let (router, peers) =
      unsubscribe_others pion recv.track_id recv.owner_peer_id r.router r.peers in
    record r {
      router = router;
      peers = peers;
      emitted = emit (track_unpublished r.id recv.owner_peer_id recv.track_id) r.emitted;
    }

-- `AddReceiver` of the room's router, with the callback.
unfoldable pub add_receiver : Pion → Receiver → Room → Room
unfolding on_receiver_added
add_receiver pion recv r =
    let q = record r { router = RouterOps.add_receiver recv r.router } in
    if r.router.on_receiver_added then on_receiver_added pion recv q else q

-- `RemoveReceiver` of the room's router, with the callback.
unfoldable pub remove_receiver : Pion → String → Room → Room
unfolding on_receiver_removed
remove_receiver pion t r =
    let (router, removed) = RouterOps.remove_receiver t r.router in
    let q = record r { router = router } in
    elim removed [
      | none ↦ q
      | some recv ↦ if router.on_receiver_removed then on_receiver_removed pion recv q else q
    ]

unfoldable pub add_cascade_bridge : String → CascadeBridge → Room → Room
add_cascade_bridge node b r = record r { cascade_bridges = insert node b r.cascade_bridges }

unfoldable pub remove_cascade_bridge : String → Room → Room
remove_cascade_bridge node r = elim (lookup node r.cascade_bridges) [
  | none ↦ r
  | some b ↦ record r {
    router = (Cascade.close r.router b).0;
    cascade_bridges = delete node r.cascade_bridges;
  }
]

-- What a bridge answers to an offer of another node, as the message that is published.
unfoldable pub reply : Pion → String → String → CascadeBridge → Option ClusterMessage
reply pion room_id local b = elim (Cascade.handle_offer pion b) [
  | none ↦ none
  | some sdp ↦ some (record {
    type = cascade_answer;
    room_id = room_id;
    from_node_id = local;
    sdp = sdp;
    sdp_type = "answer";
    candidate = "";
    sdp_mid = "";
    sdp_mline_idx = 0;
  })
]

-- A passive bridge for an offer of an unknown node, with the tracks that are there.
unfoldable pub open_bridge : Pion → String → String → Room → Room
open_bridge pion local from r =
    let b = Cascade.new_cascade_bridge r.id local from false in
    let (router, b') = cascade_existing pion (values r.router.receivers) r.router b in
    record r { router = router; cascade_bridges = insert from b' r.cascade_bridges }

-- The answer of the bridge that a room has for a node.
unfoldable pub answer_offer : Pion → String → String → Room → Room × Option ClusterMessage
answer_offer pion local from r = elim (lookup from r.cascade_bridges) [
  | none ↦ (r, none)
  | some b ↦ (r, reply pion r.id local b)
]

-- What `HandleClusterMessage` does for an offer.
unfoldable pub on_offer : Pion → String → String → Room → Room × Option ClusterMessage
unfolding open_bridge answer_offer
on_offer pion local from r =
    if contains from r.cascade_bridges
    then answer_offer pion local from r
    else if pion.new_peer_connection
    then answer_offer pion local from (open_bridge pion local from r)
    else (r, none)

cluster_case : Pion → String → String → Room → ClusterMessageType → Room × Option ClusterMessage
unfolding on_offer
cluster_case pion local from r cascade_offer = on_offer pion local from r
cluster_case pion local from r cascade_answer = (r, none)
cluster_case pion local from r cascade_candidate = (r, none)

-- `HandleClusterMessage`; answers and candidates go to pion's connection alone. The second component is
-- the message published for the node that sent this one.
unfoldable pub handle_cluster_message :
    Pion → String → ClusterMessage → Room → Room × Option ClusterMessage
unfolding cluster_case
handle_cluster_message pion local msg r = cluster_case pion local msg.from_node_id r msg.type
