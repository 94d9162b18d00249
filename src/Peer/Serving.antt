-- ===== src/Peer/Serving.antt =====
-- When a peer has a sender on a track, and what a subscription leaves alone.
use mephi_sfu_server_project.Common.{
  ℕ, String, str_eq, eq_refl, Bool, true, false, none, some, ◌≡◌, ◌≢◌, refl, sym, ◌∙◌, ap, arith,
  Option-cases, Bool-cases, inl, inr, subst,
}
use mephi_sfu_server_project.Map.{Map, lookup, insert}
use mephi_sfu_server_project.Map.Laws.{lookup-insert}
use mephi_sfu_server_project.Sender.{SenderConfig}
use mephi_sfu_server_project.Receiver
use mephi_sfu_server_project.Receiver.{Receiver}
use mephi_sfu_server_project.Router.{Router}
use mephi_sfu_server_project.Router.Ops
use mephi_sfu_server_project.Router.Ops.{
  Subscribed, no_track, failed, subscribed, senders_of, add_sender, subscribe,
}
use mephi_sfu_server_project.Router.Subscriptions.{
  sender_for, sender_for-subscribe, subscribe_unchanged, sender_for-unsubscribe,
}
use mephi_sfu_server_project.Peer.{Peer, Pion}
use mephi_sfu_server_project.Peer.Ops.{subscribe_to_track, track_answer}

-- The cases of `Subscribe`: it leaves the router alone, or adds a sender to a published track.
pub data SubscribeCase (ok : Bool) (t p : String) (c : SenderConfig) (r : Router) : Type 0 where
  same : (subscribe ok t p c r).0 ≡ r → SubscribeCase ok t p c r
  added :
      (recv : Receiver)
      → lookup t r.receivers ≡ some recv
      → sender_for t p r ≡ none
      → ok ≡ true
      → SubscribeCase ok t p c r

pub subscribe_case :
    (ok : Bool) (t p : String) (c : SenderConfig) (r : Router) → SubscribeCase ok t p c r
subscribe_case ok t p c r = elim (Option-cases (lookup t r.receivers)) [
  | inl e ↦ same (ap (λ x. x.0) ((subscribe_unchanged ok t p c r).0 e))
  | inr (recv, e) ↦ elim (Option-cases (sender_for t p r)) [
    | inr (s, h) ↦ same (ap (λ x. x.0) ((subscribe_unchanged ok t p c r).1 recv s e h))
    | inl h ↦ elim (Bool-cases ok) [
      | inl yes_ok ↦ added recv e h yes_ok
      | inr no_ok ↦ same (
          subst (λ b. (subscribe b t p c r).0 ≡ r) (sym no_ok)
            (ap (λ x. x.0) ((subscribe_unchanged ok t p c r).2 recv e h)))
    ]
  ]
]

-- Another peer's senders are as they were.
pub sender_for-subscribe_ne :
    (ok : Bool) (t p j q : String) (c : SenderConfig) (r : Router)
    → str_eq p q ≡ false
    → sender_for j q (subscribe ok t p c r).0 ≡ sender_for j q r
sender_for-subscribe_ne ok t p j q c r ne = elim (subscribe_case ok t p c r) [
  | same e ↦ ap (sender_for j q) e
  | added recv e h b ↦
      subst (λ b'. sender_for j q (subscribe b' t p c r).0 ≡ sender_for j q r) (sym b)
        (ground (arith, (sender_for-subscribe t p c r e h).1 j q))
]

lookup-insert_ne :
    (k j : String) (v : Receiver) (m : Map Receiver)
    → lookup j m ≢ none
    → lookup j (insert k v m) ≢ none
lookup-insert_ne k j v m h e = ground (arith, lookup-insert k j v m)

-- A published track stays published.
pub published-subscribe :
    (ok : Bool) (t p j : String) (c : SenderConfig) (r : Router)
    → lookup j r.receivers ≢ none
    → lookup j (subscribe ok t p c r).0.receivers ≢ none
unfolding subscribe add_sender
published-subscribe ok t p j c r h = elim (Option-cases (lookup t r.receivers)) [
  | inl e ↦ rw (e, subscribe) h
  | inr (recv, e) ↦ elim (Option-cases (sender_for t p r)) [
    | inr (s, k) ↦ rw (e, subscribe, k) h
    | inl k ↦ elim (Bool-cases ok) [
      | inl b ↦
          rw (e, subscribe, k, b)
            (lookup-insert_ne t j (Receiver.request_key_frame recv) r.receivers h)
      | inr b ↦ rw (e, subscribe, k, b) h
    ]
  ]
]

track_answer-senders :
    (pion : Pion) (t j q : String) (a : Subscribed) (r : Router) (p : Peer)
    → str_eq p.id q ≡ false
    → sender_for j q (track_answer pion t (r, a) p).0 ≡ sender_for j q r
unfolding track_answer
track_answer-senders pion t j q no_track r p ne = refl
track_answer-senders pion t j q failed r p ne = refl
track_answer-senders pion t j q (subscribed s) r p ne =
    ground (arith, sender_for-unsubscribe t p.id j q r)

-- Subscribing a peer to a track leaves the senders of every other peer alone, whatever pion answers.
pub subscribe_to_track_ne :
    (pion : Pion) (t j q : String) (r : Router) (p : Peer)
    → str_eq p.id q ≡ false
    → sender_for j q (subscribe_to_track pion t r p).0 ≡ sender_for j q r
unfolding subscribe_to_track
subscribe_to_track_ne pion t j q r p ne =
    let s = subscribe pion.new_track t p.id p.config.sender_config r in
    track_answer-senders pion t j q s.1 s.0 p ne
    ∙ sender_for-subscribe_ne pion.new_track t p.id j q p.config.sender_config r ne

-- Pion makes local tracks and lets this peer's connection send them.
pub record Accepts (pion : Pion) (id : String) : Type 0 where
  pub makes : pion.new_track ≡ true
  pub takes : (t : String) → (h : ℕ) × (pion.add_track id t ≡ some h)

track_answer-receivers :
    (pion : Pion) (t : String) (a : Subscribed) (r : Router) (p : Peer)
    → (track_answer pion t (r, a) p).0.receivers ≡ r.receivers
unfolding track_answer Ops.unsubscribe
track_answer-receivers pion t no_track r p = refl
track_answer-receivers pion t failed r p = refl
track_answer-receivers pion t (subscribed s) r p = ground arith

pub published-subscribe_to_track :
    (pion : Pion) (t j : String) (r : Router) (p : Peer)
    → lookup j r.receivers ≢ none
    → lookup j (subscribe_to_track pion t r p).0.receivers ≢ none
unfolding subscribe_to_track
published-subscribe_to_track pion t j r p h =
    let s = subscribe pion.new_track t p.id p.config.sender_config r in
    subst (λ m. lookup j m ≢ none) (sym (track_answer-receivers pion t s.1 s.0 p))
      (published-subscribe pion.new_track t p.id j p.config.sender_config r h)

track_answer_accepted :
    (pion : Pion) (t : String) (a : Subscribed) (r : Router) (p : Peer)
    → Accepts pion p.id
    → (track_answer pion t (r, a) p).0 ≡ r
unfolding track_answer
track_answer_accepted pion t no_track r p k = refl
track_answer_accepted pion t failed r p k = refl
track_answer_accepted pion t (subscribed s) r p k = ground (arith, (k.takes t).1)

-- Where pion accepts the track, the router afterwards is that of `Subscribe`.
accepted :
    (pion : Pion) (t : String) (r : Router) (p : Peer)
    → Accepts pion p.id
    → (subscribe_to_track pion t r p).0 ≡ (subscribe true t p.id p.config.sender_config r).0
unfolding subscribe_to_track
accepted pion t r p k =
    let s = subscribe pion.new_track t p.id p.config.sender_config r in
    track_answer_accepted pion t s.1 s.0 p k
    ∙ ap (λ b. (subscribe b t p.id p.config.sender_config r).0) k.makes

pub served_before :
    (t p j q : String) (c : SenderConfig) (r : Router)
    → sender_for j q r ≢ none
    → sender_for j q (subscribe true t p c r).0 ≢ none
served_before t p j q c r h = elim (subscribe_case true t p c r) [
  | same e ↦ subst (λ x. sender_for j q x ≢ none) (sym e) h
  | added recv e k b ↦ λ gone. ground (arith, (sender_for-subscribe t p c r e k).1 j q)
]

-- A peer that had a sender on a track keeps having one.
pub served-subscribe_to_track :
    (pion : Pion) (t j q : String) (r : Router) (p : Peer)
    → Accepts pion p.id
    → sender_for j q r ≢ none
    → sender_for j q (subscribe_to_track pion t r p).0 ≢ none
served-subscribe_to_track pion t j q r p k h =
    subst (λ x. sender_for j q x ≢ none) (sym (accepted pion t r p k))
      (served_before t p.id j q p.config.sender_config r h)

served_now :
    (t p : String) (c : SenderConfig) (r : Router)
    → lookup t r.receivers ≢ none
    → sender_for t p (subscribe true t p c r).0 ≢ none
served_now t p c r h = elim (Option-cases (lookup t r.receivers)) [
  | inl e ↦ absurd (h e)
  | inr (recv, e) ↦ elim (Option-cases (sender_for t p r)) [
    | inl k ↦ λ gone. ground (arith, (sender_for-subscribe t p c r e k).1 t p, eq_refl t, eq_refl p)
    | inr (s, k) ↦ λ gone. ground (
      arith,
      k,
      sym (ap (λ x. sender_for t p x.0) ((subscribe_unchanged true t p c r).1 recv s e k)),
    )
  ]
]

-- A peer that is subscribed to a published track has a sender on it.
pub serves-subscribe_to_track :
    (pion : Pion) (t : String) (r : Router) (p : Peer)
    → Accepts pion p.id
    → lookup t r.receivers ≢ none
    → sender_for t p.id (subscribe_to_track pion t r p).0 ≢ none
serves-subscribe_to_track pion t r p k h =
    subst (λ x. sender_for t p.id x ≢ none) (sym (accepted pion t r p k))
      (served_now t p.id p.config.sender_config r h)
