-- ===== src/Peer/Lifecycle.antt =====
-- Subscribing a peer to a track and closing a peer, as seen in the router.
use mephi_sfu_server_project.Common.{
  ℕ, String, str_eq, eq_iff, eq_refl, true, false, ◌&&◌, [], none, some, ◌≡◌, refl, arith,
  Option-cases, Bool-cases, inl, inr, if◌then◌else◌,
}
use mephi_sfu_server_project.Map.{lookup, insert, delete}
use mephi_sfu_server_project.Map.Laws.{lookup-insert}
use mephi_sfu_server_project.Sender.{Sender}
use mephi_sfu_server_project.Receiver.{Receiver}
use mephi_sfu_server_project.Router.{Router}
use mephi_sfu_server_project.Router.Ops
use mephi_sfu_server_project.Router.Ops.{Subscribed, no_track, failed, subscribed, senders_of}
use mephi_sfu_server_project.Router.Invariant.{Inv}
use mephi_sfu_server_project.Router.Invariant.Senders.{
  subscribe-Inv, unsubscribe-Inv, unsubscribe_all-Inv,
}
use mephi_sfu_server_project.Router.Subscriptions.{
  sender_for, fresh_sender, sender_for-subscribe, sender_for-unsubscribe,
  sender_for-unsubscribe_all,
}
use mephi_sfu_server_project.Peer.{Peer, Pion, negotiate, closed}
use mephi_sfu_server_project.Peer.Ops.{
  no_rtp_sender, subscribe_to_track, unsubscribe_from_track, close, track_answer,
}

-- Negotiation leaves the identity, the tracks and the life of a peer alone.
pub negotiate-keeps :
    (pion : Pion) (p : Peer)
    → ((negotiate pion p).id ≡ p.id)
      × ((negotiate pion p).rtp_senders ≡ p.rtp_senders)
      × ((negotiate pion p).close_once ≡ p.close_once)
      × ((negotiate pion p).on_close ≡ p.on_close)
      × ((negotiate pion p).state ≡ p.state)
unfolding negotiate
negotiate-keeps pion p = ground arith

track_answer-keeps :
    (pion : Pion) (t : String) (a : Subscribed) (r : Router) (p : Peer)
    → ((track_answer pion t (r, a) p).1.id ≡ p.id)
      × ((track_answer pion t (r, a) p).1.close_once ≡ p.close_once)
      × ((track_answer pion t (r, a) p).1.on_close ≡ p.on_close)
unfolding track_answer
track_answer-keeps pion t no_track r p = (refl, refl, refl)
track_answer-keeps pion t failed r p = (refl, refl, refl)
track_answer-keeps pion t (subscribed s) r p = elim (Option-cases (pion.add_track p.id t)) [
  | inl e ↦ ground arith
  | inr (h, e) ↦
      ground (arith, negotiate-keeps pion (record p { rtp_senders = insert t h p.rtp_senders }))
]

track_answer-Inv :
    (pion : Pion) (t : String) (a : Subscribed) (r : Router) (p : Peer)
    → Inv r
    → Inv (track_answer pion t (r, a) p).0
unfolding track_answer
track_answer-Inv pion t no_track r p v = v
track_answer-Inv pion t failed r p v = v
track_answer-Inv pion t (subscribed s) r p v = elim (Option-cases (pion.add_track p.id t)) [
  | inl e ↦ rw (e, track_answer) (unsubscribe-Inv t p.id r v)
  | inr (h, e) ↦ rw (e, track_answer) v
]

module _ (pion : Pion) (t : String) (r : Router) (p : Peer) where
  pub subscribe_to_track-keeps :
      ((subscribe_to_track pion t r p).1.id ≡ p.id)
      × ((subscribe_to_track pion t r p).1.close_once ≡ p.close_once)
      × ((subscribe_to_track pion t r p).1.on_close ≡ p.on_close)
  unfolding subscribe_to_track
  subscribe_to_track-keeps =
      let s = Ops.subscribe pion.new_track t p.id p.config.sender_config r in
      track_answer-keeps pion t s.1 s.0 p

  pub subscribe_to_track-Inv : Inv r → Inv (subscribe_to_track pion t r p).0
  unfolding subscribe_to_track
  subscribe_to_track-Inv v =
      let s = Ops.subscribe pion.new_track t p.id p.config.sender_config r in
      track_answer-Inv pion t s.1 s.0 p
        (subscribe-Inv pion.new_track t p.id p.config.sender_config r v)

  pub unsubscribe_from_track-Inv : Inv r → Inv (unsubscribe_from_track pion t r p).0
  unfolding unsubscribe_from_track
  unsubscribe_from_track-Inv v = elim (Option-cases (lookup t p.rtp_senders)) [
    | inl e ↦ rw (e, unsubscribe_from_track) v
    | inr (h, e) ↦ elim (Bool-cases (pion.remove_track h)) [
      | inl b ↦ rw (e, unsubscribe_from_track, b) (unsubscribe-Inv t p.id r v)
      | inr b ↦ rw (e, unsubscribe_from_track, b) v
    ]
  ]

  pub unsubscribe_from_track-keeps :
      ((unsubscribe_from_track pion t r p).1.id ≡ p.id)
      × ((unsubscribe_from_track pion t r p).1.close_once ≡ p.close_once)
      × ((unsubscribe_from_track pion t r p).1.on_close ≡ p.on_close)
  unfolding unsubscribe_from_track
  unsubscribe_from_track-keeps =
      ground (arith, negotiate-keeps pion (record p { rtp_senders = delete t p.rtp_senders }))

module _ (pion : Pion) (t : String) (r : Router) (p : Peer) (s : Sender) where
  track_answer_taken :
      (a : Router × Subscribed) {h : ℕ}
      → a.1 ≡ subscribed s
      → pion.add_track p.id t ≡ some h
      → track_answer pion t a p
        ≡ (a.0, negotiate pion (record p { rtp_senders = insert t h p.rtp_senders }), none)
  unfolding track_answer
  track_answer_taken a e k = ground arith

  track_answer_refused :
      (a : Router × Subscribed)
      → a.1 ≡ subscribed s
      → pion.add_track p.id t ≡ none
      → track_answer pion t a p ≡ (Ops.unsubscribe t p.id a.0, p, some no_rtp_sender)
  unfolding track_answer
  track_answer_refused a e k = ground arith

module _ (pion : Pion) (t : String) (r : Router) (p : Peer) {recv : Receiver}
    (e : lookup t r.receivers ≡ some recv) (none_yet : sender_for t p.id r ≡ none)
    (n : pion.new_track ≡ true) where
  after_subscribe : Router × Subscribed
  after_subscribe = Ops.subscribe true t p.id p.config.sender_config r

  subscribe_to_track_taken :
      {h : ℕ}
      → pion.add_track p.id t ≡ some h
      → subscribe_to_track pion t r p ≡ (
        after_subscribe.0,
        negotiate pion (record p { rtp_senders = insert t h p.rtp_senders }),
        none,
      )
  unfolding subscribe_to_track after_subscribe
  subscribe_to_track_taken a = simp n (
      track_answer_taken pion t r p _ after_subscribe
        (sender_for-subscribe t p.id p.config.sender_config r e none_yet).0 a)

  subscribe_to_track_refused :
      pion.add_track p.id t ≡ none
      → subscribe_to_track pion t r p
        ≡ (Ops.unsubscribe t p.id after_subscribe.0, p, some no_rtp_sender)
  unfolding subscribe_to_track after_subscribe
  subscribe_to_track_refused a = simp n (
      track_answer_refused pion t r p _ after_subscribe
        (sender_for-subscribe t p.id p.config.sender_config r e none_yet).0 a)

  -- Where pion makes the local track and the connection takes it, a peer without a sender on a published track has one
  -- afterwards, its connection sends the track, and no sender of another peer or track has changed.
  pub subscribe_to_track_ok :
      {h : ℕ}
      → pion.add_track p.id t ≡ some h
      → let (r', p', err) = subscribe_to_track pion t r p in
        (err ≡ none)
        × (lookup t p'.rtp_senders ≡ some h)
        × ((j q : String)
            → sender_for j q r' ≡ (
                if str_eq t j && str_eq p.id q
                then some (fresh_sender recv t p.id p.config.sender_config)
                else sender_for j q r))
  unfolding after_subscribe
  subscribe_to_track_ok {h} a =
      let q = record p { rtp_senders = insert t h p.rtp_senders } in
      rw (subscribe_to_track_taken a) (
        refl,
        ground (arith, negotiate-keeps pion q, lookup-insert t t h p.rtp_senders, eq_refl t),
        (sender_for-subscribe t p.id p.config.sender_config r e none_yet).1,
      )

  -- A subscription that fails leaves no trace: where pion makes the local track of a published track,
  -- but the connection of a peer without a sender on it refuses to send it, the peer is as it was, and
  -- so is the sender of every peer on every track.
  pub subscribe_to_track_rollback :
      pion.add_track p.id t ≡ none
      → let (r', p', err) = subscribe_to_track pion t r p in
        (err ≡ some no_rtp_sender)
        × (p' ≡ p)
        × ((j q : String) → sender_for j q r' ≡ sender_for j q r)
  unfolding after_subscribe
  subscribe_to_track_rollback a = rw (subscribe_to_track_refused a) (
    refl,
    refl,
    λ j q. ground (
      arith,
      eq_iff t j,
      eq_iff p.id q,
      (sender_for-subscribe t p.id p.config.sender_config r e none_yet).1 j q,
      sender_for-unsubscribe t p.id j q after_subscribe.0,
    ),
  )

-- Closing a live peer takes its senders off every track and no other's, and marks it closed; closing it
-- again does nothing, and the callback runs at the first time only.
pub close_once_lem :
    (r : Router) (p : Peer)
    → p.close_once ≡ false
    → let (r', p', called) = close r p in
      (p'.state ≡ closed)
      × (p'.rtp_senders ≡ [])
      × (called ≡ p.on_close)
      × ((j q : String) → sender_for j q r' ≡ (if str_eq p.id q then none else sender_for j q r))
      × (close r' p' ≡ (r', p', false))
unfolding close
close_once_lem r p e = (
  rw e refl,
  rw e refl,
  rw e refl,
  λ j q. rw e (sender_for-unsubscribe_all p.id j q r),
  rw e refl,
)

pub close-Inv : (r : Router) (p : Peer) → Inv r → Inv (close r p).0
unfolding close
close-Inv r p v = elim (Bool-cases p.close_once) [
  | inl e ↦ rw e v
  | inr e ↦ rw e (unsubscribe_all-Inv p.id r v)
]
