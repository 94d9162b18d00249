-- ===== src/Router/Invariant/Whole.antt =====
-- `forward` and `Close` keep the invariant of the router.
use mephi_sfu_server_project.Common.{
  ℕ, String, List, [], ◌∷◌, some, length, All, ◌≡◌, refl, arith, All-append, length-append,
  Option-cases, inl, inr,
}
use mephi_sfu_server_project.Map.{Map, lookup, insert, map_values, total, Distinct}
use mephi_sfu_server_project.Map.Laws.{insert-Distinct, map_values-Distinct}
use mephi_sfu_server_project.Map.Total.{total-insert_old}
use mephi_sfu_server_project.Map.Every.{
  Every, insert-Every, map_values-Every, Every-nil, Every-uncons, length-map_values,
}
use mephi_sfu_server_project.Sender
use mephi_sfu_server_project.Sender.{Sender, SenderPacket}
use mephi_sfu_server_project.Router.{Router, sender_count}
use mephi_sfu_server_project.Router.Ops.{forward, stop_senders, stop_all, close}
use mephi_sfu_server_project.Router.Invariant.{Addressed, Subscribers, IsStopped, Inv}
use mephi_sfu_server_project.Router.Invariant.Tracks.{stop_all-IsStopped, length-stop_all}

module _ (pool : String → SenderPacket) (buf : List ℕ) (n : ℕ) where
  write_rtp-Addressed :
      (t p : String) (s : Sender)
      → Addressed t p s
      → Addressed t p (Sender.write_rtp (pool p) buf n s)
  unfolding Sender.write_rtp
  write_rtp-Addressed t p s a = ground arith

  written-Subscribers :
      (t : String) (m : Map Sender)
      → Subscribers t m
      → Subscribers t (map_values (λ p s. Sender.write_rtp (pool p) buf n s) m)
  written-Subscribers t m s = record {
    distinct = map_values-Distinct _ m s.distinct;
    addressed =
        map_values-Every (Addressed t) (Addressed t) _ (write_rtp-Addressed t) m s.addressed;
  }

  forward_count :
      (t : String) (m : Map Sender) (senders : Map (Map Sender))
      → lookup t senders ≡ some m
      → sender_count (insert t (map_values (λ p s. Sender.write_rtp (pool p) buf n s) m) senders)
        ≡ sender_count senders
  unfolding sender_count
  forward_count t m senders e = omega (
    arith,
    total-insert_old length t (map_values (λ p s. Sender.write_rtp (pool p) buf n s) m) m senders e,
    length-map_values (λ p s. Sender.write_rtp (pool p) buf n s) m,
  )

  forward_cases :
      (t : String) (m : Map Sender) (r : Router)
      → lookup t r.senders ≡ some m
      → Inv r
      → Inv (forward pool t buf n r)
  unfolding forward
  forward_cases t [] r e v = rw (e, forward) v
  forward_cases t (x ∷ rest) r e v =
      rw (e, forward)
        (record {
          receivers_distinct = v.receivers_distinct;
          senders_distinct = insert-Distinct t _ r.senders v.senders_distinct;
          named = v.named;
          subscribers =
              insert-Every Subscribers t _ r.senders
                (written-Subscribers t (x ∷ rest) (v.subscribers t (x ∷ rest) e)) v.subscribers;
          published = insert-Every _ t _ r.senders (v.published t (x ∷ rest) e) v.published;
          counted = ground (arith, v.counted, forward_count t (x ∷ rest) r.senders e);
          stopped = v.stopped;
        })

  pub forward-Inv : (t : String) (r : Router) → Inv r → Inv (forward pool t buf n r)
  unfolding forward
  forward-Inv t r v = elim (Option-cases (lookup t r.senders)) [
    | inl e ↦ rw (e, forward) v
    | inr (m, e) ↦ forward_cases t m r e v
  ]

stop_senders-IsStopped :
    (senders : Map (Map Sender))
    → Distinct senders
    → Every Subscribers senders
    → All IsStopped (stop_senders senders)
unfolding stop_senders
stop_senders-IsStopped [] d h = tt
stop_senders-IsStopped ((t, m) ∷ rest) d h =
    let parts = Every-uncons Subscribers t m rest d h in
    All-append IsStopped (stop_all m) (stop_senders rest) (stop_all-IsStopped t m parts.0)
      (stop_senders-IsStopped rest d.1 parts.1)

length-stop_senders :
    (senders : Map (Map Sender)) → length (stop_senders senders) ≡ sender_count senders
unfolding stop_senders sender_count total
length-stop_senders [] = refl
length-stop_senders ((t, m) ∷ rest) = omega (
  arith,
  length-append (stop_all m) (stop_senders rest),
  length-stop_all m,
  length-stop_senders rest,
)

pub close-Inv : (r : Router) → Inv r → Inv (close r)
unfolding close sender_count total
close-Inv r v = record {
  receivers_distinct = tt;
  senders_distinct = tt;
  named = Every-nil _;
  subscribers = Every-nil _;
  published = Every-nil _;
  counted = ground (
    arith,
    v.counted,
    length-append (stop_senders r.senders) r.retired,
    length-stop_senders r.senders,
  );
  stopped =
      All-append IsStopped (stop_senders r.senders) r.retired
        (stop_senders-IsStopped r.senders v.senders_distinct v.subscribers) v.stopped;
}
