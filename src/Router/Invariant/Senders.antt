-- ===== src/Router/Invariant/Senders.antt =====
-- `Subscribe`, `Unsubscribe` and `UnsubscribeAll` keep the invariant of the router.
use mephi_sfu_server_project.Common.{
  ◌+◌, String, Bool, true, false, [], ◌∷◌, Option, none, some, length, All, ◌≡◌, refl, arith,
  All-append, length-append, length-map, map, Option-cases, inl, inr, eq_refl,
}
use mephi_sfu_server_project.Map.{Map, lookup, insert, delete, map_values, total, Distinct}
use mephi_sfu_server_project.Map.Laws.{
  lookup-insert, insert-Distinct, delete-Distinct, map_values-Distinct, delete_absent,
}
use mephi_sfu_server_project.Map.Total.{
  total-insert_new, total-insert_old, length-insert_new, length-delete,
}
use mephi_sfu_server_project.Map.Every.{
  Every, insert-Every, delete-Every, map_values-Every, Every-uncons,
}
use mephi_sfu_server_project.Sender
use mephi_sfu_server_project.Sender.{Sender, SenderConfig}
use mephi_sfu_server_project.Receiver
use mephi_sfu_server_project.Receiver.{Receiver}
use mephi_sfu_server_project.Router.{Router, sender_count}
use mephi_sfu_server_project.Router.Ops.{
  add_sender, subscribe, senders_of, remove_sender, unsubscribe, unsubscribe_all, senders_by_peer,
}
use mephi_sfu_server_project.Router.Invariant.{Addressed, Subscribers, IsStopped, Inv}
use mephi_sfu_server_project.Router.Invariant.Tracks.{
  stop-IsStopped, empty-Subscribers, lookup-insert_ne,
}

senders_of-Subscribers : (t : String) (r : Router) → Inv r → Subscribers t (senders_of t r.senders)
senders_of-Subscribers t r v = elim (Option-cases (lookup t r.senders)) [
  | inl e ↦ rw (e, senders_of) (empty-Subscribers t)
  | inr (m, e) ↦ rw (e, senders_of) (v.subscribers t m e)
]

new_sender-Addressed :
    (t p codec stream : String) (config : SenderConfig)
    → Addressed t p (Sender.start (Sender.new_sender p codec t stream config))
unfolding Sender.start Sender.new_sender
new_sender-Addressed t p codec stream config = record { id = refl; peer = refl; live = refl }

length-senders_of :
    (t : String) (senders : Map (Map Sender)) {o : Option (Map Sender)}
    → lookup t senders ≡ o
    → length (senders_of t senders) ≡ length (elim o [ none ↦ [] | some inner ↦ inner ])
length-senders_of t senders e = rw (e, senders_of) refl

-- One more sender for a peer that had none.
add_count :
    (t p : String) (s : Sender) (senders : Map (Map Sender))
    → lookup p (senders_of t senders) ≡ none
    → sender_count (insert t (insert p s (senders_of t senders)) senders) ≡ sender_count senders + 1
unfolding sender_count
add_count t p s senders h = elim (Option-cases (lookup t senders)) [
  | inl e ↦ omega (
    arith,
    total-insert_new length t (insert p s (senders_of t senders)) senders e,
    length-insert_new p s (senders_of t senders) h,
    length-senders_of t senders e,
  )
  | inr (m, e) ↦ omega (
    arith,
    total-insert_old length t (insert p s (senders_of t senders)) m senders e,
    length-insert_new p s (senders_of t senders) h,
    length-senders_of t senders e,
  )
]

module _ (recv : Receiver) (t p : String) (config : SenderConfig) (r : Router) (v : Inv r) where
  add_sender-Inv :
      lookup t r.receivers ≡ some recv
      → lookup p (senders_of t r.senders) ≡ none
      → Inv (add_sender recv t p config r).0
  unfolding add_sender
  add_sender-Inv e h =
      let s = senders_of-Subscribers t r v in
      let a = new_sender-Addressed t p recv.codec recv.stream_id config in
      record {
        receivers_distinct = insert-Distinct t _ r.receivers v.receivers_distinct;
        senders_distinct = insert-Distinct t _ r.senders v.senders_distinct;
        named =
            insert-Every _ t _ r.receivers (unfold Receiver.request_key_frame in v.named t recv e)
              v.named;
        subscribers =
            insert-Every Subscribers t _ r.senders
              (record {
                distinct = insert-Distinct p _ _ s.distinct;
                addressed = insert-Every (Addressed t) p _ _ a s.addressed;
              })
              v.subscribers;
        published =
            insert-Every _ t _ r.senders
              (λ gone.
                ground (
                  arith,
                  lookup-insert t t (Receiver.request_key_frame recv) r.receivers,
                  eq_refl t,
                ))
              (λ j m found. lookup-insert_ne t j _ r.receivers (v.published j m found));
        counted = ground (
          arith,
          v.counted,
          add_count t p (Sender.start (Sender.new_sender p recv.codec t recv.stream_id config))
              r.senders h,
        );
        stopped = v.stopped;
      }

pub subscribe-Inv :
    (ok : Bool) (t p : String) (config : SenderConfig) (r : Router)
    → Inv r
    → Inv (subscribe ok t p config r).0
unfolding subscribe
subscribe-Inv ok t p config r v = elim (Option-cases (lookup t r.receivers)) [
  | inl e ↦ rw (e, subscribe) v
  | inr (recv, e) ↦ elim (Option-cases (lookup p (senders_of t r.senders))) [
    | inr (s, h) ↦ rw (e, subscribe, h) v
    | inl h ↦ elim ok as (λ b. Inv (subscribe b t p config r).0) [
      | true ↦ rw (e, subscribe, h) (add_sender-Inv recv t p config r v e h)
      | false ↦ rw (e, subscribe, h) v
    ]
  ]
]

remove_count :
    (t p : String) (m : Map Sender) (s : Sender) (senders : Map (Map Sender))
    → lookup t senders ≡ some m
    → lookup p m ≡ some s
    → Distinct m
    → sender_count (insert t (delete p m) senders) + 1 ≡ sender_count senders
unfolding sender_count
remove_count t p m s senders e h d =
    omega (arith, total-insert_old length t (delete p m) m senders e, length-delete p s m d h)

module _ (t p : String) (r : Router) (v : Inv r) where
  remove_sender-Inv :
      (m : Map Sender) (s : Sender)
      → lookup t r.senders ≡ some m
      → lookup p m ≡ some s
      → Inv (remove_sender t p m s r)
  unfolding remove_sender
  remove_sender-Inv m s e h =
      let subs = v.subscribers t m e in
      record {
        receivers_distinct = v.receivers_distinct;
        senders_distinct = insert-Distinct t _ r.senders v.senders_distinct;
        named = v.named;
        subscribers =
            insert-Every Subscribers t _ r.senders
              (record {
                distinct = delete-Distinct p m subs.distinct;
                addressed = delete-Every (Addressed t) p m subs.addressed;
              })
              v.subscribers;
        published = insert-Every _ t _ r.senders (v.published t m e) v.published;
        counted = ground (arith, v.counted, remove_count t p m s r.senders e h subs.distinct);
        stopped = (stop-IsStopped t p s (subs.addressed p s h), v.stopped);
      }

pub unsubscribe-Inv : (t p : String) (r : Router) → Inv r → Inv (unsubscribe t p r)
unfolding unsubscribe
unsubscribe-Inv t p r v = elim (Option-cases (lookup t r.senders)) [
  | inl e ↦ rw (e, unsubscribe) v
  | inr (m, e) ↦ elim (Option-cases (lookup p m)) [
    | inl h ↦ rw (e, unsubscribe, h) v
    | inr (s, h) ↦ rw (e, unsubscribe, h) (remove_sender-Inv t p r v m s e h)
  ]
]

-- The senders that `UnsubscribeAll` takes away are the ones that it counts.
unsubscribe_all_count :
    (p : String) (senders : Map (Map Sender))
    → Distinct senders
    → Every Subscribers senders
    → sender_count (map_values (λ t m. delete p m) senders) + length (senders_by_peer p senders)
      ≡ sender_count senders
unfolding sender_count total map_values senders_by_peer
unsubscribe_all_count p [] d h = omega arith
unsubscribe_all_count p ((t, m) ∷ rest) d h =
    let parts = Every-uncons Subscribers t m rest d h in
    let ih = unsubscribe_all_count p rest d.1 parts.1 in
    elim (Option-cases (lookup p m)) [
      | inl e ↦ rw (e, senders_by_peer, delete_absent p m e) (omega (arith, ih))
      | inr (s, e) ↦
          rw (e, senders_by_peer) (omega (arith, ih, length-delete p s m parts.0.distinct e))
    ]

senders_by_peer-IsStopped :
    (p : String) (senders : Map (Map Sender))
    → Distinct senders
    → Every Subscribers senders
    → All IsStopped (map Sender.stop (senders_by_peer p senders))
unfolding senders_by_peer
senders_by_peer-IsStopped p [] d h = tt
senders_by_peer-IsStopped p ((t, m) ∷ rest) d h =
    let parts = Every-uncons Subscribers t m rest d h in
    let ih = senders_by_peer-IsStopped p rest d.1 parts.1 in
    elim (Option-cases (lookup p m)) [
      | inl e ↦ rw (e, senders_by_peer) ih
      | inr (s, e) ↦ rw (e, senders_by_peer) (stop-IsStopped t p s (parts.0.addressed p s e), ih)
    ]

delete-Subscribers : (p t : String) (m : Map Sender) → Subscribers t m → Subscribers t (delete p m)
delete-Subscribers p t m s = record {
  distinct = delete-Distinct p m s.distinct;
  addressed = delete-Every (Addressed t) p m s.addressed;
}

pub unsubscribe_all-Inv : (p : String) (r : Router) → Inv r → Inv (unsubscribe_all p r)
unfolding unsubscribe_all
unsubscribe_all-Inv p r v =
    let gone = map Sender.stop (senders_by_peer p r.senders) in
    record {
      receivers_distinct = v.receivers_distinct;
      senders_distinct = map_values-Distinct (λ t m. delete p m) r.senders v.senders_distinct;
      named = v.named;
      subscribers =
          map_values-Every Subscribers Subscribers (λ t m. delete p m) (delete-Subscribers p)
            r.senders v.subscribers;
      published =
          map_values-Every _ _ (λ t m. delete p m) (λ t m there. there) r.senders v.published;
      counted = ground (
        arith,
        v.counted,
        unsubscribe_all_count p r.senders v.senders_distinct v.subscribers,
        length-append gone r.retired,
        length-map Sender.stop (senders_by_peer p r.senders),
      );
      stopped =
          All-append IsStopped gone r.retired
            (senders_by_peer-IsStopped p r.senders v.senders_distinct v.subscribers) v.stopped;
    }
