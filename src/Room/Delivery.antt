-- ===== src/Room/Delivery.antt =====
-- Who gets whose tracks: a new member every track of the others, and the others every new track.
use mephi_sfu_server_project.Common.{
  String, str_eq, true, false, List, [], ◌∷◌, none, some, All, ◌≡◌, ◌≢◌, refl, sym, ◌∙◌, ap, subst,
  arith, Bool-cases, inl, inr,
}
use mephi_sfu_server_project.Map.{lookup, values}
use mephi_sfu_server_project.Map.Every.{values-All, lookup-values}
use mephi_sfu_server_project.Receiver.{Receiver}
use mephi_sfu_server_project.Router.{Router}
use mephi_sfu_server_project.Router.Invariant as RI
use mephi_sfu_server_project.Router.Subscriptions.{sender_for}
use mephi_sfu_server_project.Peer.{Peer, PeerConfig, Pion, new_peer}
use mephi_sfu_server_project.Peer.Ops as PeerOps
use mephi_sfu_server_project.Peer.Lifecycle as Lifecycle
use mephi_sfu_server_project.Peer.Serving.{
  Accepts, published-subscribe_to_track, served-subscribe_to_track, serves-subscribe_to_track,
}
use mephi_sfu_server_project.Room.{Room}
use mephi_sfu_server_project.Room.Loops.{subscribe_existing}
use mephi_sfu_server_project.Room.Ops.{join, admit}
use mephi_sfu_server_project.Room.Invariant.{Inv}

existing_own :
    (pion : Pion) (recv : Receiver) (rest : List Receiver) (r : Router) (p : Peer)
    → str_eq recv.owner_peer_id p.id ≡ true
    → subscribe_existing pion (recv ∷ rest) r p ≡ subscribe_existing pion rest r p
unfolding subscribe_existing
existing_own pion recv rest r p e = rw (e, subscribe_existing) refl

existing_other :
    (pion : Pion) (recv : Receiver) (rest : List Receiver) (r : Router) (p : Peer)
    → str_eq recv.owner_peer_id p.id ≡ false
    → let s = PeerOps.subscribe_to_track pion recv.track_id r p in
      subscribe_existing pion (recv ∷ rest) r p ≡ subscribe_existing pion rest s.0 s.1
unfolding subscribe_existing
existing_other pion recv rest r p e = rw (e, subscribe_existing) refl

still_published :
    (pion : Pion) (t : String) (r : Router) (p : Peer) (rest : List Receiver)
    → All (λ recv. lookup recv.track_id r.receivers ≢ none) rest
    → All
        (λ recv. lookup recv.track_id (PeerOps.subscribe_to_track pion t r p).0.receivers ≢ none)
        rest
still_published pion t r p [] h = tt
still_published pion t r p (x ∷ rest) h =
    (published-subscribe_to_track pion t x.track_id r p h.0, still_published pion t r p rest h.1)

module _ (pion : Pion) (id : String) (k : Accepts pion id) where
  existing_still_served :
      (recvs : List Receiver) (r : Router) (p : Peer) (j : String)
      → p.id ≡ id
      → sender_for j id r ≢ none
      → sender_for j id (subscribe_existing pion recvs r p).0 ≢ none
  unfolding subscribe_existing
  existing_still_served [] r p j e h = h
  existing_still_served (recv ∷ rest) r p j e h =
      elim (Bool-cases (str_eq recv.owner_peer_id p.id)) [
        | inl own ↦ rw (own, subscribe_existing) (existing_still_served rest r p j e h)
        | inr other ↦
            let s = PeerOps.subscribe_to_track pion recv.track_id r p in
            rw (other, subscribe_existing)
              (existing_still_served rest s.0 s.1 j
                ((Lifecycle.subscribe_to_track-keeps pion recv.track_id r p).0 ∙ e)
                (served-subscribe_to_track pion recv.track_id j id r p
                  (subst (Accepts pion) (sym e) k) h))
      ]

  -- A listed track that is not the peer's own reaches the peer.
  abbrev Served : Router → Receiver → Type 0
  Served r recv = str_eq recv.owner_peer_id id ≡ false → sender_for recv.track_id id r ≢ none

  existing-Served :
      (recvs : List Receiver) (r : Router) (p : Peer)
      → p.id ≡ id
      → All (λ recv. lookup recv.track_id r.receivers ≢ none) recvs
      → All (Served (subscribe_existing pion recvs r p).0) recvs
  existing-Served [] r p e h = tt
  existing-Served (recv ∷ rest) r p e h = elim (Bool-cases (str_eq recv.owner_peer_id p.id)) [
    | inl own ↦
        subst (λ x. All (Served x.0) (recv ∷ rest)) (sym (existing_own pion recv rest r p own))
          (
            λ other.
                let clash : true ≡ false = sym own ∙ ap (str_eq recv.owner_peer_id) e ∙ other in
                cc clash,
            existing-Served rest r p e h.1,
          )
    | inr other ↦
        let s = PeerOps.subscribe_to_track pion recv.track_id r p in
        let e' = (Lifecycle.subscribe_to_track-keeps pion recv.track_id r p).0 ∙ e in
        let now =
          subst (λ q. sender_for recv.track_id q s.0 ≢ none) e
            (serves-subscribe_to_track pion recv.track_id r p (subst (Accepts pion) (sym e) k)
              h.0) in
        subst (λ x. All (Served x.0) (recv ∷ rest)) (sym (existing_other pion recv rest r p other))
          (
            λ _. existing_still_served rest s.0 s.1 recv.track_id e' now,
            existing-Served rest s.0 s.1 e' (still_published pion recv.track_id r p rest h.1),
          )
  ]

joined :
    (pion : Pion) (id : String) (config : PeerConfig) (r : Room)
    → (join pion id config r).1 ≡ none
    → (join pion id config r).0 ≡ admit pion id config r
unfolding join
joined pion id config r e = ground arith

published_tracks :
    (r : Router)
    → RI.Inv r
    → All (λ recv. lookup recv.track_id r.receivers ≢ none) (values r.receivers)
published_tracks r v =
    values-All (λ recv. lookup recv.track_id r.receivers ≢ none) r.receivers v.receivers_distinct
      (λ t recv e gone.
        let clash : none ≡ some recv =
          sym gone ∙ ap (λ x. lookup x r.receivers) (v.named t recv e) ∙ e in
        cc clash)

-- In a well-formed room, where pion takes the tracks of the new peer: a peer whose `Join` succeeds
-- has a sender on every published track that another peer owns.
pub join_served :
    (pion : Pion) (id : String) (config : PeerConfig) (r : Room) (t : String) (recv : Receiver)
    → Inv r
    → Accepts pion id
    → (join pion id config r).1 ≡ none
    → lookup t r.router.receivers ≡ some recv
    → str_eq recv.owner_peer_id id ≡ false
    → sender_for t id (join pion id config r).0.router ≢ none
unfolding admit new_peer PeerOps.set_on_close
join_served pion id config r t recv v k ok found other =
    let p = PeerOps.set_on_close (new_peer r.admitted id config) in
    let router = (subscribe_existing pion (values r.router.receivers) r.router p).0 in
    let all : All (Served pion id k router) (values r.router.receivers) =
      existing-Served pion id k (values r.router.receivers) r.router p refl
        (published_tracks r.router v.router) in
    let here : sender_for recv.track_id id router ≢ none =
      lookup-values (Served pion id k router) t recv r.router.receivers found all other in
    subst (λ x. sender_for t id x.router ≢ none) (sym (joined pion id config r ok))
      (subst (λ x. sender_for x id router ≢ none) (v.router.named t recv found) here)
