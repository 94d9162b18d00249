-- ===== src/Room/Invariant/Loops.antt =====
-- The loops of Room/Loops.antt keep the router well-formed, and the members in their places.
use mephi_sfu_server_project.Common.{
  suc, String, str_eq, List, [], ◌∷◌, none, length, ◌≡◌, refl, ap, arith, Bool-cases, Option-cases,
  inl, inr,
}
use mephi_sfu_server_project.Map.{Map, lookup, contains, Distinct}
use mephi_sfu_server_project.Sender.{default_sender_config}
use mephi_sfu_server_project.Receiver.{Receiver}
use mephi_sfu_server_project.Router.{Router}
use mephi_sfu_server_project.Router.Ops as RouterOps
use mephi_sfu_server_project.Router.Invariant as RI
use mephi_sfu_server_project.Router.Invariant.Senders.{subscribe-Inv, unsubscribe-Inv}
use mephi_sfu_server_project.Peer.{Peer, Pion}
use mephi_sfu_server_project.Peer.Ops as PeerOps
use mephi_sfu_server_project.Peer.Lifecycle as Lifecycle
use mephi_sfu_server_project.Cascade
use mephi_sfu_server_project.Cascade.{CascadeBridge, cascade_peer}
use mephi_sfu_server_project.Room.Loops.{
  subscribe_existing, subscribe_others, unsubscribe_others, cascade_track, cascade_existing,
  close_peers, close_bridges,
}
use mephi_sfu_server_project.Room.Invariant.{Member, Members}

module _ (pion : Pion) where
  pub subscribe_existing-Member :
      (recvs : List Receiver) (r : Router) (p : Peer) (id : String)
      → Member id p
      → Member id (subscribe_existing pion recvs r p).1
  unfolding subscribe_existing
  subscribe_existing-Member [] r p id m = m
  subscribe_existing-Member (recv ∷ rest) r p id m =
      elim (Bool-cases (str_eq recv.owner_peer_id p.id)) [
        | inl e ↦ rw (e, subscribe_existing) (subscribe_existing-Member rest r p id m)
        | inr e ↦
            let s = PeerOps.subscribe_to_track pion recv.track_id r p in
            rw (e, subscribe_existing)
              (subscribe_existing-Member rest s.0 s.1 id
                (ground (arith, Lifecycle.subscribe_to_track-keeps pion recv.track_id r p)))
      ]

  pub subscribe_existing-Inv :
      (recvs : List Receiver) (r : Router) (p : Peer)
      → RI.Inv r
      → RI.Inv (subscribe_existing pion recvs r p).0
  unfolding subscribe_existing
  subscribe_existing-Inv [] r p v = v
  subscribe_existing-Inv (recv ∷ rest) r p v = elim (Bool-cases (str_eq recv.owner_peer_id p.id)) [
    | inl e ↦ rw (e, subscribe_existing) (subscribe_existing-Inv rest r p v)
    | inr e ↦
        let s = PeerOps.subscribe_to_track pion recv.track_id r p in
        rw (e, subscribe_existing)
          (subscribe_existing-Inv rest s.0 s.1
            (Lifecycle.subscribe_to_track-Inv pion recv.track_id r p v))
  ]

-- A loop over the members leaves the same names in the map, and members behind them.
pub record Kept (r' : Router) (m m' : Map Peer) : Type 0 where
  pub router : RI.Inv r'
  pub size : length m' ≡ length m
  pub absent : (j : String) → lookup j m ≡ none → lookup j m' ≡ none
  pub distinct : Distinct m'
  pub members : Members m'

absent-cons :
    (id j : String) (p p' : Peer) (m m' : Map Peer)
    → (lookup j m ≡ none → lookup j m' ≡ none)
    → lookup j ((id, p) ∷ m) ≡ none
    → lookup j ((id, p') ∷ m') ≡ none
unfolding lookup
absent-cons id j p p' m m' h e = ground arith

cons-Kept :
    (id : String) (p p' : Peer) (r' : Router) (m m' : Map Peer)
    → Member id p'
    → Distinct ((id, p) ∷ m)
    → Kept r' m m'
    → Kept r' ((id, p) ∷ m) ((id, p') ∷ m')
cons-Kept id p p' r' m m' k d rest = record {
  router = rest.router;
  size = ap suc rest.size;
  absent = λ j. absent-cons id j p p' m m' (rest.absent j);
  distinct = (rest.absent id d.0, rest.distinct);
  members = (k, rest.members);
}

nil-Kept : (r : Router) → RI.Inv r → Kept r [] []
nil-Kept r v = record { router = v; size = refl; absent = λ j e. e; distinct = tt; members = tt }

module _ (pion : Pion) (t : String) where
  bridge_answer-Inv :
      (a : RouterOps.Subscribed) (r : Router) (b : CascadeBridge)
      → RI.Inv r
      → RI.Inv (Cascade.bridge_answer pion t (r, a) b).0
  unfolding Cascade.bridge_answer
  bridge_answer-Inv RouterOps.Subscribed.no_track r b v = v
  bridge_answer-Inv RouterOps.Subscribed.failed r b v = v
  bridge_answer-Inv (RouterOps.Subscribed.subscribed s) r b v =
      elim (Option-cases (pion.add_track (cascade_peer b.remote_node_id) t)) [
        | inl e ↦
            rw (e, Cascade.bridge_answer) (unsubscribe-Inv t (cascade_peer b.remote_node_id) r v)
        | inr (h, e) ↦ rw (e, Cascade.bridge_answer) v
      ]

  pub add_track-Inv :
      (r : Router) (b : CascadeBridge) → RI.Inv r → RI.Inv (Cascade.add_track pion t r b).0
  unfolding Cascade.add_track
  add_track-Inv r b v = elim (Bool-cases (contains t b.senders)) [
    | inl e ↦ rw (e, Cascade.add_track) v
    | inr e ↦
        let s =
          RouterOps.subscribe pion.new_track t (cascade_peer b.remote_node_id) default_sender_config
            r in
        rw (e, Cascade.add_track)
          (bridge_answer-Inv s.1 s.0 b (
            subscribe-Inv pion.new_track t (cascade_peer b.remote_node_id) default_sender_config r
              v))
  ]

module _ (pion : Pion) (t owner : String) where
  pub subscribe_others-Kept :
      (r : Router) (m : Map Peer)
      → RI.Inv r
      → Distinct m
      → Members m
      → Kept (subscribe_others pion t owner r m).0 m (subscribe_others pion t owner r m).1
  unfolding subscribe_others
  subscribe_others-Kept r [] v d k = nil-Kept r v
  subscribe_others-Kept r ((id, p) ∷ rest) v d k = elim (Bool-cases (str_eq id owner)) [
    | inl e ↦
        rw (e, subscribe_others)
          (cons-Kept id p p _ rest _ k.0 d (subscribe_others-Kept r rest v d.1 k.1))
    | inr e ↦
        let s = PeerOps.subscribe_to_track pion t r p in
        rw (e, subscribe_others)
          (cons-Kept id p s.1 _ rest _
            (ground (arith, Lifecycle.subscribe_to_track-keeps pion t r p)) d
            (subscribe_others-Kept s.0 rest (Lifecycle.subscribe_to_track-Inv pion t r p v) d.1
              k.1))
  ]

  pub unsubscribe_others-Kept :
      (r : Router) (m : Map Peer)
      → RI.Inv r
      → Distinct m
      → Members m
      → Kept (unsubscribe_others pion t owner r m).0 m (unsubscribe_others pion t owner r m).1
  unfolding unsubscribe_others
  unsubscribe_others-Kept r [] v d k = nil-Kept r v
  unsubscribe_others-Kept r ((id, p) ∷ rest) v d k = elim (Bool-cases (str_eq id owner)) [
    | inl e ↦
        rw (e, unsubscribe_others)
          (cons-Kept id p p _ rest _ k.0 d (unsubscribe_others-Kept r rest v d.1 k.1))
    | inr e ↦
        let s = PeerOps.unsubscribe_from_track pion t r p in
        rw (e, unsubscribe_others)
          (cons-Kept id p s.1 _ rest _
            (ground (arith, Lifecycle.unsubscribe_from_track-keeps pion t r p)) d
            (unsubscribe_others-Kept s.0 rest (Lifecycle.unsubscribe_from_track-Inv pion t r p v)
              d.1 k.1))
  ]

  pub cascade_track-Inv :
      (r : Router) (m : Map CascadeBridge) → RI.Inv r → RI.Inv (cascade_track pion t owner r m).0
  unfolding cascade_track
  cascade_track-Inv r [] v = v
  cascade_track-Inv r ((node, b) ∷ rest) v =
      elim (Bool-cases (str_eq owner (cascade_peer b.remote_node_id))) [
        | inl e ↦ rw (e, cascade_track) (cascade_track-Inv r rest v)
        | inr e ↦
            rw (e, cascade_track)
              (cascade_track-Inv (Cascade.add_track pion t r b).0 rest (add_track-Inv pion t r b v))
      ]

pub cascade_existing-Inv :
    (pion : Pion) (recvs : List Receiver) (r : Router) (b : CascadeBridge)
    → RI.Inv r
    → RI.Inv (cascade_existing pion recvs r b).0
unfolding cascade_existing
cascade_existing-Inv pion [] r b v = v
cascade_existing-Inv pion (recv ∷ rest) r b v =
    elim (Bool-cases (str_eq recv.owner_peer_id (cascade_peer b.remote_node_id))) [
      | inl e ↦ rw (e, cascade_existing) (cascade_existing-Inv pion rest r b v)
      | inr e ↦
          let s = Cascade.add_track pion recv.track_id r b in
          rw (e, cascade_existing)
            (cascade_existing-Inv pion rest s.0 s.1 (add_track-Inv pion recv.track_id r b v))
    ]

pub close_peers-Inv : (r : Router) (m : Map Peer) → RI.Inv r → RI.Inv (close_peers r m).0
unfolding close_peers
close_peers-Inv r [] v = v
close_peers-Inv r ((id, p) ∷ rest) v =
    close_peers-Inv (PeerOps.close r p).0 rest (Lifecycle.close-Inv r p v)

release_tracks-Inv :
    (peer_id : String) (m : Map String) (r : Router)
    → RI.Inv r
    → RI.Inv (Cascade.release_tracks peer_id m r)
unfolding Cascade.release_tracks
release_tracks-Inv peer_id [] r v = v
release_tracks-Inv peer_id ((t, s) ∷ rest) r v =
    release_tracks-Inv peer_id rest (RouterOps.unsubscribe t peer_id r)
      (unsubscribe-Inv t peer_id r v)

pub close_bridge-Inv : (r : Router) (b : CascadeBridge) → RI.Inv r → RI.Inv (Cascade.close r b).0
unfolding Cascade.close
close_bridge-Inv r b v = release_tracks-Inv (cascade_peer b.remote_node_id) b.senders r v

pub close_bridges-Inv : (r : Router) (m : Map CascadeBridge) → RI.Inv r → RI.Inv (close_bridges r m)
unfolding close_bridges
close_bridges-Inv r [] v = v
close_bridges-Inv r ((node, b) ∷ rest) v =
    close_bridges-Inv (Cascade.close r b).0 rest (close_bridge-Inv r b v)
