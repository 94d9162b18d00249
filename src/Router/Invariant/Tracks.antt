-- ===== src/Router/Invariant/Tracks.antt =====
-- A new router, `AddReceiver` and `RemoveReceiver` keep the invariant of the router.
use mephi_sfu_server_project.Common.{
  String, Bool, [], none, some, length, All, ◌≡◌, ◌≢◌, refl, ◌∙◌, arith, All-append, length-append,
  length-map, Option-cases, inl, inr, eq_refl, eq_iff,
}
use mephi_sfu_server_project.Map.{Map, lookup, insert, delete, values, total, Distinct}
use mephi_sfu_server_project.Map.Laws.{
  lookup-insert, lookup-delete, insert-Distinct, delete-Distinct,
}
use mephi_sfu_server_project.Map.Total.{total-insert_new, total-delete}
use mephi_sfu_server_project.Map.Every.{
  Every, insert-Every, delete-Every, Every-nil, map-values-All, length-values,
}
use mephi_sfu_server_project.Sender
use mephi_sfu_server_project.Sender.{Sender, SenderConfig, SenderPacket}
use mephi_sfu_server_project.Receiver
use mephi_sfu_server_project.Receiver.{Receiver}
use mephi_sfu_server_project.Router.{Router, sender_count, new_router}
use mephi_sfu_server_project.Router.Ops.{
  ensure_senders, add_receiver, drop_senders, drop_receiver, remove_receiver, stop_all,
}
use mephi_sfu_server_project.Router.Invariant.{Addressed, Subscribers, IsStopped, Inv}

pub new_router-Inv : (has_metrics : Bool) → Inv (new_router has_metrics)
unfolding new_router sender_count total
new_router-Inv b = record {
  receivers_distinct = tt;
  senders_distinct = tt;
  named = Every-nil _;
  subscribers = Every-nil _;
  published = Every-nil _;
  counted = ground arith;
  stopped = tt;
}

pub lookup-insert_ne :
    {V : Type 0} (k j : String) (v : V) (m : Map V)
    → lookup j m ≢ none
    → lookup j (insert k v m) ≢ none
lookup-insert_ne k j v m h e = ground (arith, lookup-insert k j v m)

pub empty-Subscribers : (t : String) → Subscribers t []
empty-Subscribers t = record { distinct = tt; addressed = Every-nil _ }

-- A track that has just been registered has a receiver.
pub lookup-insert_self :
    {V : Type 0} (k : String) (v : V) (m : Map V) → lookup k (insert k v m) ≡ some v
lookup-insert_self k v m = ground (arith, lookup-insert k k v m, eq_refl k)

module _ (recv : Receiver) (r : Router) (v : Inv r) where
  ensure_senders-Distinct : (t : String) → Distinct (ensure_senders t r.senders)
  unfolding ensure_senders
  ensure_senders-Distinct t = elim (Option-cases (lookup t r.senders)) [
    | inl e ↦ rw (e, ensure_senders) (insert-Distinct t [] r.senders v.senders_distinct)
    | inr (m, e) ↦ rw (e, ensure_senders) v.senders_distinct
  ]

  ensure_senders-Every :
      (P : String → Map Sender → Type 0) (t : String)
      → P t []
      → Every P r.senders
      → Every P (ensure_senders t r.senders)
  unfolding ensure_senders
  ensure_senders-Every P t p h = elim (Option-cases (lookup t r.senders)) [
    | inl e ↦ rw (e, ensure_senders) (insert-Every P t [] r.senders p h)
    | inr (m, e) ↦ rw (e, ensure_senders) h
  ]

  ensure_senders-count :
      (t : String) → sender_count (ensure_senders t r.senders) ≡ sender_count r.senders
  unfolding ensure_senders sender_count
  ensure_senders-count t = elim (Option-cases (lookup t r.senders)) [
    | inl e ↦ rw (e, ensure_senders) (omega (arith, total-insert_new length t [] r.senders e))
    | inr (m, e) ↦ rw (e, ensure_senders) refl
  ]

  pub add_receiver-Inv : Inv (add_receiver recv r)
  unfolding add_receiver
  add_receiver-Inv = record {
    receivers_distinct = insert-Distinct recv.track_id _ r.receivers v.receivers_distinct;
    senders_distinct = ensure_senders-Distinct recv.track_id;
    named =
        insert-Every _ recv.track_id _ r.receivers
          (unfold Receiver.start Receiver.set_on_packet in refl) v.named;
    subscribers =
        ensure_senders-Every Subscribers recv.track_id (empty-Subscribers _) v.subscribers;
    published =
        ensure_senders-Every _ recv.track_id
          (λ e. ground (
            arith,
            lookup-insert_self recv.track_id
                (Receiver.start (Receiver.set_on_packet recv.track_id recv)) r.receivers,
          ))
          (λ t m e. lookup-insert_ne recv.track_id t _ r.receivers (v.published t m e));
    counted = ground (arith, ensure_senders-count recv.track_id, v.counted);
    stopped = v.stopped;
  }

-- A sender that was live is stopped by `Stop`.
pub stop-IsStopped : (t p : String) (s : Sender) → Addressed t p s → IsStopped (Sender.stop s)
unfolding Sender.stop
stop-IsStopped t p s a = ground arith

pub stop_all-IsStopped :
    (t : String) (m : Map Sender) → Subscribers t m → All IsStopped (stop_all m)
stop_all-IsStopped t m s =
    map-values-All (Addressed t) IsStopped Sender.stop m (stop-IsStopped t) s.distinct s.addressed

pub length-stop_all : (m : Map Sender) → length (stop_all m) ≡ length m
length-stop_all m = length-map Sender.stop (values m) ∙ length-values m

delete-published :
    (t : String) (receivers : Map Receiver) (senders : Map (Map Sender))
    → Every (λ j m. lookup j receivers ≢ none) senders
    → Every (λ j m. lookup j (delete t receivers) ≢ none) (delete t senders)
delete-published t receivers senders h j m e gone =
    ground (arith, lookup-delete t j senders, lookup-delete t j receivers, h j m)

absent-published :
    (t : String) (receivers : Map Receiver) (senders : Map (Map Sender))
    → lookup t senders ≡ none
    → Every (λ j m. lookup j receivers ≢ none) senders
    → Every (λ j m. lookup j (delete t receivers) ≢ none) senders
absent-published t receivers senders none_here h j m e gone =
    ground (arith, eq_iff t j, lookup-delete t j receivers, h j m)

module _ (t : String) (recv : Receiver) (r : Router) (v : Inv r) where
  drop_with_senders :
      (m : Map Sender)
      → lookup t r.senders ≡ some m
      → Inv (drop_receiver recv t (drop_senders (some m) t r))
  unfolding drop_receiver drop_senders sender_count
  drop_with_senders m e =
      let s = v.subscribers t m e in
      record {
        receivers_distinct = delete-Distinct t r.receivers v.receivers_distinct;
        senders_distinct = delete-Distinct t r.senders v.senders_distinct;
        named = delete-Every _ t r.receivers v.named;
        subscribers = delete-Every _ t r.senders v.subscribers;
        published = delete-published t r.receivers r.senders v.published;
        counted = ground (
          arith,
          v.counted,
          total-delete length t m r.senders v.senders_distinct e,
          length-append (stop_all m) r.retired,
          length-stop_all m,
        );
        stopped = All-append IsStopped (stop_all m) r.retired (stop_all-IsStopped t m s) v.stopped;
      }

  drop_without_senders :
      lookup t r.senders ≡ none → Inv (drop_receiver recv t (drop_senders none t r))
  unfolding drop_receiver drop_senders
  drop_without_senders e = record {
    receivers_distinct = delete-Distinct t r.receivers v.receivers_distinct;
    senders_distinct = v.senders_distinct;
    named = delete-Every _ t r.receivers v.named;
    subscribers = v.subscribers;
    published = absent-published t r.receivers r.senders e v.published;
    counted = ground (arith, v.counted);
    stopped = v.stopped;
  }

pub remove_receiver-Inv : (t : String) (r : Router) → Inv r → Inv (remove_receiver t r).0
unfolding remove_receiver
remove_receiver-Inv t r v = elim (Option-cases (lookup t r.receivers)) [
  | inl e ↦ rw (e, remove_receiver) v
  | inr (recv, e) ↦ elim (Option-cases (lookup t r.senders)) [
    | inl e' ↦ rw (e, remove_receiver, e') (drop_without_senders t recv r v e')
    | inr (m, e') ↦ rw (e, remove_receiver, e') (drop_with_senders t recv r v m e')
  ]
]
