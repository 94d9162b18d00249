-- ===== src/Router/Subscriptions.antt =====
-- What the operations of the router do to the sender of a peer on a track.
use mephi_sfu_server_project.Common.{
  String, str_eq, Bool, true, false, ◌&&◌, [], Option, none, some, ◌≡◌, refl, arith, Option-cases,
  inl, inr, if◌then◌else◌, eq_iff,
}
use mephi_sfu_server_project.Map.{Map, lookup, insert, delete}
use mephi_sfu_server_project.Map.Laws.{lookup-insert, lookup-delete, lookup-map_values}
use mephi_sfu_server_project.Sender
use mephi_sfu_server_project.Sender.{Sender, SenderConfig, SenderPacket}
use mephi_sfu_server_project.Receiver.{Receiver}
use mephi_sfu_server_project.Router.{Router}
use mephi_sfu_server_project.Router.Ops.{
  remove_receiver, drop_receiver, drop_senders, senders_of, subscribe, no_track, subscribed, failed,
  unsubscribe, unsubscribe_all,
}

-- The sender that serves a peer on a track.
abbrev pub sender_for : String → String → Router → Option Sender
sender_for t p r = lookup p (senders_of t r.senders)

-- The sender that `Subscribe` makes.
abbrev pub fresh_sender : Receiver → String → String → SenderConfig → Sender
fresh_sender recv t p config = Sender.start (Sender.new_sender p recv.codec t recv.stream_id config)

lookup-nil : (k : String) → lookup {V = Sender} k [] ≡ none
unfolding lookup
lookup-nil k = refl

lookup-senders_of-insert :
    (t j q : String) (m : Map Sender) (senders : Map (Map Sender))
    → lookup q (senders_of j (insert t m senders))
      ≡ (if str_eq t j then lookup q m else lookup q (senders_of j senders))
lookup-senders_of-insert t j q m senders = ground (arith, lookup-insert t j m senders)

-- On a published track, a peer without a sender gets a fresh one with the codec and the stream of
-- the receiver, which `Subscribe` also returns; every other peer's sender, on every track, is as it was.
pub sender_for-subscribe :
    (t p : String) (config : SenderConfig) (r : Router) {recv : Receiver}
    → lookup t r.receivers ≡ some recv
    → sender_for t p r ≡ none
    → ((subscribe true t p config r).1 ≡ subscribed (fresh_sender recv t p config))
      × ((j q : String)
          → sender_for j q (subscribe true t p config r).0 ≡ (
              if str_eq t j && str_eq p q
              then some (fresh_sender recv t p config)
              else sender_for j q r))
unfolding subscribe
sender_for-subscribe t p config r {recv} e h = (
  rw (e, subscribe, h) refl,
  λ j q.
      rw (e, subscribe, h)
        (ground (
          arith,
          eq_iff t j,
          lookup-senders_of-insert t j q
              (insert p (fresh_sender recv t p config) (senders_of t r.senders)) r.senders,
          lookup-insert p q (fresh_sender recv t p config) (senders_of t r.senders),
        )),
)

-- `Subscribe` changes nothing where there is nothing to do: it answers no sender for an unknown track,
-- the sender at hand for a peer that has one, and an error where pion makes no local track.
pub subscribe_unchanged :
    (ok : Bool) (t p : String) (config : SenderConfig) (r : Router)
    → (lookup t r.receivers ≡ none → subscribe ok t p config r ≡ (r, no_track))
      × ((recv : Receiver) (s : Sender)
          → lookup t r.receivers ≡ some recv
          → sender_for t p r ≡ some s
          → subscribe ok t p config r ≡ (r, subscribed s))
      × ((recv : Receiver)
          → lookup t r.receivers ≡ some recv
          → sender_for t p r ≡ none
          → subscribe false t p config r ≡ (r, failed))
unfolding subscribe
subscribe_unchanged ok t p config r = (
  λ e. rw (e, subscribe) refl,
  λ recv s e h. rw (e, subscribe, h) refl,
  λ recv e h. rw (e, subscribe, h) refl,
)

-- `Unsubscribe` takes away the sender of the peer on the track and no other.
pub sender_for-unsubscribe :
    (t p j q : String) (r : Router)
    → sender_for j q (unsubscribe t p r)
      ≡ (if str_eq t j && str_eq p q then none else sender_for j q r)
unfolding unsubscribe
sender_for-unsubscribe t p j q r = elim (Option-cases (lookup t r.senders)) [
  | inl e ↦ rw (e, unsubscribe) (ground (arith, eq_iff t j, lookup-nil q))
  | inr (m, e) ↦ elim (Option-cases (lookup p m)) [
    | inl h ↦ rw (e, unsubscribe, h) (ground (arith, eq_iff t j, eq_iff p q))
    | inr (s, h) ↦
        rw (e, unsubscribe, h)
          (ground (
            arith,
            eq_iff t j,
            lookup-senders_of-insert t j q (delete p m) r.senders,
            lookup-delete p q m,
          ))
  ]
]

-- `UnsubscribeAll` takes away every sender of the peer, and no other.
pub sender_for-unsubscribe_all :
    (p j q : String) (r : Router)
    → sender_for j q (unsubscribe_all p r) ≡ (if str_eq p q then none else sender_for j q r)
unfolding unsubscribe_all
sender_for-unsubscribe_all p j q r =
    let m = senders_of j r.senders in
    ground (
      arith,
      lookup-map_values (λ t inner. delete p inner) j r.senders,
      lookup-delete p q m,
      lookup-nil q,
    )

-- `RemoveReceiver` of a published track takes away every sender of that track and no other.
pub sender_for-remove_receiver :
    (t j q : String) (r : Router) {recv : Receiver}
    → lookup t r.receivers ≡ some recv
    → sender_for j q (remove_receiver t r).0 ≡ (if str_eq t j then none else sender_for j q r)
unfolding remove_receiver drop_receiver drop_senders
sender_for-remove_receiver t j q r e = elim (Option-cases (lookup t r.senders)) [
  | inl h ↦ rw (e, remove_receiver, h, drop_senders) (ground (arith, eq_iff t j, lookup-nil q))
  | inr (m, h) ↦
      rw (e, remove_receiver, h, drop_senders)
        (ground (arith, lookup-delete t j r.senders, lookup-nil q))
]
