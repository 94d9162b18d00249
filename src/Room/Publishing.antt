-- ===== src/Room/Publishing.antt =====
-- Whom a published track reaches: `onReceiverAdded` of room.go.
use mephi_sfu_server_project.Common.{
  String, str_eq, eq_iff, false, [], ◌∷◌, none, some, ◌≡◌, ◌≢◌, refl, sym, ◌∙◌, ap, subst, arith,
  Bool-cases, inl, inr, str_eq-cases,
}
use mephi_sfu_server_project.Map.{Map, lookup, contains}
use mephi_sfu_server_project.Sender.{default_sender_config}
use mephi_sfu_server_project.Receiver.{Receiver}
use mephi_sfu_server_project.Router.{Router}
use mephi_sfu_server_project.Router.Ops as RouterOps
use mephi_sfu_server_project.Router.Ops.{Subscribed, no_track, failed, subscribed}
use mephi_sfu_server_project.Router.Subscriptions.{sender_for, sender_for-unsubscribe}
use mephi_sfu_server_project.Peer.{Peer, Pion}
use mephi_sfu_server_project.Peer.Ops as PeerOps
use mephi_sfu_server_project.Peer.Serving.{
  Accepts, subscribe_to_track_ne, published-subscribe_to_track, served-subscribe_to_track,
  serves-subscribe_to_track, sender_for-subscribe_ne, served_before,
}
use mephi_sfu_server_project.Cascade
use mephi_sfu_server_project.Cascade.{CascadeBridge, cascade_peer, bridge_answer}
use mephi_sfu_server_project.Room.{Room}
use mephi_sfu_server_project.Room.Loops.{subscribe_others, cascade_track}
use mephi_sfu_server_project.Room.Ops.{on_receiver_added}
use mephi_sfu_server_project.Room.Invariant.{Members, Inv}

bridge_answer_ne :
    (pion : Pion) (t j q : String) (a : Subscribed) (r : Router) (b : CascadeBridge)
    → str_eq (cascade_peer b.remote_node_id) q ≡ false
    → sender_for j q (bridge_answer pion t (r, a) b).0 ≡ sender_for j q r
unfolding bridge_answer
bridge_answer_ne pion t j q no_track r b ne = refl
bridge_answer_ne pion t j q failed r b ne = refl
bridge_answer_ne pion t j q (subscribed s) r b ne =
    ground (arith, sender_for-unsubscribe t (cascade_peer b.remote_node_id) j q r)

-- A bridge that takes a track leaves the senders of every other peer alone.
add_track_ne :
    (pion : Pion) (t j q : String) (r : Router) (b : CascadeBridge)
    → str_eq (cascade_peer b.remote_node_id) q ≡ false
    → sender_for j q (Cascade.add_track pion t r b).0 ≡ sender_for j q r
unfolding Cascade.add_track
add_track_ne pion t j q r b ne = elim (Bool-cases (contains t b.senders)) [
  | inl e ↦ rw (e, Cascade.add_track) refl
  | inr e ↦
      let s =
        RouterOps.subscribe pion.new_track t (cascade_peer b.remote_node_id) default_sender_config
          r in
      rw (e, Cascade.add_track)
        (bridge_answer_ne pion t j q s.1 s.0 b ne
          ∙ sender_for-subscribe_ne pion.new_track t (cascade_peer b.remote_node_id) j q
              default_sender_config r ne)
]

module _ (pion : Pion) (t owner : String) where
  others_spare_owner :
      (j : String) (r : Router) (m : Map Peer)
      → Members m
      → sender_for j owner (subscribe_others pion t owner r m).0 ≡ sender_for j owner r
  unfolding subscribe_others
  others_spare_owner j r [] k = refl
  others_spare_owner j r ((id, p) ∷ rest) k = elim (Bool-cases (str_eq id owner)) [
    | inl e ↦ rw (e, subscribe_others) (others_spare_owner j r rest k.1)
    | inr e ↦
        let s = PeerOps.subscribe_to_track pion t r p in
        rw (e, subscribe_others)
          (others_spare_owner j s.0 rest k.1
            ∙ subscribe_to_track_ne pion t j owner r p (ap (λ x. str_eq x owner) k.0.named ∙ e))
  ]

  cascade_spares_owner :
      (j : String) (r : Router) (m : Map CascadeBridge)
      → sender_for j owner (cascade_track pion t owner r m).0 ≡ sender_for j owner r
  unfolding cascade_track
  cascade_spares_owner j r [] = refl
  cascade_spares_owner j r ((node, b) ∷ rest) =
      elim (Bool-cases (str_eq owner (cascade_peer b.remote_node_id))) [
        | inl e ↦ rw (e, cascade_track) (cascade_spares_owner j r rest)
        | inr e ↦
            let s = Cascade.add_track pion t r b in
            rw (e, cascade_track)
              (cascade_spares_owner j s.0 rest
                ∙ add_track_ne pion t j owner r b (
                    ground (
                      arith,
                      eq_iff owner (cascade_peer b.remote_node_id),
                      eq_iff (cascade_peer b.remote_node_id) owner,
                    )))
      ]

-- Publishing a track in a well-formed room never sends the owner anything: whatever pion answers, each of the
-- senders of the owner is as it was.
pub no_echo :
    (pion : Pion) (recv : Receiver) (r : Room) (j : String)
    → Inv r
    → sender_for j recv.owner_peer_id (on_receiver_added pion recv r).router
      ≡ sender_for j recv.owner_peer_id r.router
unfolding on_receiver_added
no_echo pion recv r j v =
    let s = subscribe_others pion recv.track_id recv.owner_peer_id r.router r.peers in
    cascade_spares_owner pion recv.track_id recv.owner_peer_id j s.0 r.cascade_bridges
    ∙ others_spare_owner pion recv.track_id recv.owner_peer_id j r.router r.peers v.members

bridge_answer_accepted :
    (pion : Pion) (t : String) (a : Subscribed) (r : Router) (b : CascadeBridge)
    → Accepts pion (cascade_peer b.remote_node_id)
    → (bridge_answer pion t (r, a) b).0 ≡ r
unfolding bridge_answer
bridge_answer_accepted pion t no_track r b k = refl
bridge_answer_accepted pion t failed r b k = refl
bridge_answer_accepted pion t (subscribed s) r b k = ground (arith, (k.takes t).1)

module _ (pion : Pion) (k : (id : String) → Accepts pion id) where
  add_track_served :
      (t j q : String) (r : Router) (b : CascadeBridge)
      → sender_for j q r ≢ none
      → sender_for j q (Cascade.add_track pion t r b).0 ≢ none
  unfolding Cascade.add_track
  add_track_served t j q r b h = elim (Bool-cases (contains t b.senders)) [
    | inl e ↦ rw (e, Cascade.add_track) h
    | inr e ↦
        let peer_id = cascade_peer b.remote_node_id in
        let s = RouterOps.subscribe pion.new_track t peer_id default_sender_config r in
        rw (e, Cascade.add_track)
          (subst (λ x. sender_for j q x ≢ none)
            (sym (bridge_answer_accepted pion t s.1 s.0 b (k peer_id)))
            (subst
              (λ ok.
                sender_for j q (RouterOps.subscribe ok t peer_id default_sender_config r).0 ≢ none)
              (sym (k peer_id).makes) (served_before t peer_id j q default_sender_config r h)))
  ]

  module _ (t owner : String) where
    cascade_served :
        (j q : String) (r : Router) (m : Map CascadeBridge)
        → sender_for j q r ≢ none
        → sender_for j q (cascade_track pion t owner r m).0 ≢ none
    unfolding cascade_track
    cascade_served j q r [] h = h
    cascade_served j q r ((node, b) ∷ rest) h =
        elim (Bool-cases (str_eq owner (cascade_peer b.remote_node_id))) [
          | inl e ↦ rw (e, cascade_track) (cascade_served j q r rest h)
          | inr e ↦
              rw (e, cascade_track)
                (cascade_served j q (Cascade.add_track pion t r b).0 rest
                  (add_track_served t j q r b h))
        ]

    others_served_before :
        (j q : String) (r : Router) (m : Map Peer)
        → sender_for j q r ≢ none
        → sender_for j q (subscribe_others pion t owner r m).0 ≢ none
    unfolding subscribe_others
    others_served_before j q r [] h = h
    others_served_before j q r ((id, p) ∷ rest) h = elim (Bool-cases (str_eq id owner)) [
      | inl e ↦ rw (e, subscribe_others) (others_served_before j q r rest h)
      | inr e ↦
          rw (e, subscribe_others)
            (others_served_before j q (PeerOps.subscribe_to_track pion t r p).0 rest
              (served-subscribe_to_track pion t j q r p (k p.id) h))
    ]

    others_served :
        (q : String) (p : Peer) (r : Router) (m : Map Peer)
        → Members m
        → lookup t r.receivers ≢ none
        → lookup q m ≡ some p
        → str_eq q owner ≡ false
        → sender_for t q (subscribe_others pion t owner r m).0 ≢ none
    unfolding subscribe_others lookup
    others_served q p r [] v h e other = cc e
    others_served q p r ((id, x) ∷ rest) v h e other = elim (str_eq-cases id q) [
      | inl same ↦
          let x_id : x.id ≡ q = v.0.named ∙ same in
          let here : str_eq id owner ≡ false = ap (λ y. str_eq y owner) same ∙ other in
          rw (here, subscribe_others)
            (others_served_before t q (PeerOps.subscribe_to_track pion t r x).0 rest (
              subst (λ y. sender_for t y (PeerOps.subscribe_to_track pion t r x).0 ≢ none) x_id
                (serves-subscribe_to_track pion t r x (k x.id) h)))
      | inr apart ↦ elim (Bool-cases (str_eq id owner)) [
        | inl own ↦
            rw (own, subscribe_others) (others_served q p r rest v.1 h (rw apart at e) other)
        | inr own ↦
            rw (own, subscribe_others)
              (others_served q p (PeerOps.subscribe_to_track pion t r x).0 rest v.1
                (published-subscribe_to_track pion t t r x h) (rw apart at e) other)
      ]
    ]

  -- Where pion takes every track: when a receiver is in the router of a well-formed room and is announced,
  -- each member but its owner has a sender on it afterwards.
  pub publish_served :
      (recv : Receiver) (r : Room) (q : String) (p : Peer)
      → Inv r
      → lookup recv.track_id r.router.receivers ≢ none
      → lookup q r.peers ≡ some p
      → str_eq q recv.owner_peer_id ≡ false
      → sender_for recv.track_id q (on_receiver_added pion recv r).router ≢ none
  unfolding on_receiver_added
  publish_served recv r q p v h e other =
      let s = subscribe_others pion recv.track_id recv.owner_peer_id r.router r.peers in
      cascade_served recv.track_id recv.owner_peer_id recv.track_id q s.0 r.cascade_bridges
        (others_served recv.track_id recv.owner_peer_id q p r.router r.peers v.members h e other)
