-- ===== src/Router/Refinement.antt =====
-- What a router promises: which tracks are published, and who is subscribed to which. The maps, their order, the
-- senders and the metrics are forgotten.
use mathlib.Core.Path.{fun_ext}
use mephi_sfu_server_project.Common.{
  String, str_eq, eq_iff, Bool, true, false, not, ◌&&◌, ◌||◌, List, [], ◌∷◌, none, some, is_some,
  ◌≡◌, refl, ◌∙◌, ap, arith, Option-cases, inl, inr,
}
use mephi_sfu_server_project.Map.{lookup}
use mephi_sfu_server_project.Map.Laws.{lookup-insert, lookup-delete}
use mephi_sfu_server_project.Receiver
use mephi_sfu_server_project.Router.{Router, new_router}
use mephi_sfu_server_project.Router.Ops.{
  unsubscribe_all, add_receiver, ensure_senders, remove_receiver, drop_receiver, drop_senders,
  subscribe, add_sender, unsubscribe, remove_sender, forward, close,
}
use mephi_sfu_server_project.Router.Subscriptions.{
  sender_for, sender_for-subscribe, subscribe_unchanged, sender_for-unsubscribe,
  sender_for-unsubscribe_all, sender_for-remove_receiver,
}
use mephi_sfu_server_project.Router.Forwarding.{
  Call, adds, removes, subscribes, unsubscribes, unsubscribes_all, forwards, closes, step, run,
  sender_for-forward,
}

-- The abstract router.
pub record View : Type 0 where
  pub published : String → Bool
  pub subscribed : String → String → Bool

unfoldable pub view : Router → View
view r = record {
  published = λ t. is_some (lookup t r.receivers);
  subscribed = λ t p. is_some (sender_for t p r);
}

-- What each call means: a subscription needs a published track and pion's consent; a track that ends takes its
-- subscriptions along; a packet changes nothing.
unfoldable pub meaning : Call → View → View
meaning (adds recv) v = record v { published = λ j. str_eq recv.track_id j || v.published j }
meaning (removes t) v = record {
  published = λ j. not (str_eq t j) && v.published j;
  subscribed = λ j q. not (str_eq t j && v.published t) && v.subscribed j q;
}
meaning (subscribes ok t p config) v = record v {
  subscribed = λ j q. (ok && v.published t && str_eq t j && str_eq p q) || v.subscribed j q;
}
meaning (unsubscribes t p) v = record v {
  subscribed = λ j q. not (str_eq t j && str_eq p q) && v.subscribed j q;
}
meaning (unsubscribes_all p) v = record v {
  subscribed = λ j q. not (str_eq p q) && v.subscribed j q;
}
meaning (forwards pool t buf n) v = v
meaning closes v = record { published = λ j. false; subscribed = λ j q. false }

unfoldable pub meanings : List Call → View → View
unfolding meaning
meanings [] v = v
meanings (c ∷ rest) v = meanings rest (meaning c v)

view_ext :
    (v w : View)
    → ((j : String) → v.published j ≡ w.published j)
    → ((j q : String) → v.subscribed j q ≡ w.subscribed j q)
    → v ≡ w
view_ext v w same_tracks same_subscribers = λ i. record {
  published = fun_ext same_tracks i;
  subscribed = fun_ext (λ j. fun_ext (same_subscribers j)) i;
}

-- The receivers after each call.
adds-published :
    (recv : Receiver.Receiver) (r : Router) (j : String)
    → is_some (lookup j (add_receiver recv r).receivers)
      ≡ (str_eq recv.track_id j || is_some (lookup j r.receivers))
unfolding add_receiver
adds-published recv r j =
    let started = Receiver.start (Receiver.set_on_packet recv.track_id recv) in
    ground (arith, lookup-insert recv.track_id j started r.receivers)

adds-subscribed :
    (recv : Receiver.Receiver) (r : Router) (j q : String)
    → is_some (sender_for j q (add_receiver recv r)) ≡ is_some (sender_for j q r)
unfolding add_receiver ensure_senders lookup
adds-subscribed recv r j q =
    ground (arith, eq_iff recv.track_id j, lookup-insert recv.track_id j [] r.senders)

removes-published :
    (t : String) (r : Router) (j : String)
    → is_some (lookup j (remove_receiver t r).0.receivers)
      ≡ (not (str_eq t j) && is_some (lookup j r.receivers))
unfolding remove_receiver drop_receiver drop_senders
removes-published t r j = ground (arith, eq_iff t j, lookup-delete t j r.receivers)

removes-subscribed :
    (t : String) (r : Router) (j q : String)
    → is_some (sender_for j q (remove_receiver t r).0)
      ≡ (not (str_eq t j && is_some (lookup t r.receivers)) && is_some (sender_for j q r))
unfolding remove_receiver
removes-subscribed t r j q = elim (Option-cases (lookup t r.receivers)) [
  | inl e ↦ rw (e, remove_receiver) (ground arith)
  | inr (recv, e) ↦ ground (arith, e, sender_for-remove_receiver t j q r e)
]

subscribes-published :
    (ok : Bool) (t p : String) (config : _) (r : Router) (j : String)
    → is_some (lookup j (subscribe ok t p config r).0.receivers) ≡ is_some (lookup j r.receivers)
unfolding subscribe add_sender
subscribes-published ok t p config r j = elim (Option-cases (lookup t r.receivers)) [
  | inl e ↦ rw (e, subscribe) refl
  | inr (recv, e) ↦
      ground (arith, e, eq_iff t j, lookup-insert t j (Receiver.request_key_frame recv) r.receivers)
]

subscribes-subscribed :
    (ok : Bool) (t p : String) (config : _) (r : Router) (j q : String)
    → is_some (sender_for j q (subscribe ok t p config r).0) ≡ (
        (ok && is_some (lookup t r.receivers) && str_eq t j && str_eq p q)
        || is_some (sender_for j q r))
subscribes-subscribed ok t p config r j q = elim (Option-cases (lookup t r.receivers)) [
  | inl e ↦ rw (e, (subscribe_unchanged ok t p config r).0 e) (ground arith)
  | inr (recv, e) ↦ elim (Option-cases (sender_for t p r)) [
    | inr (s, h) ↦
        rw ((subscribe_unchanged ok t p config r).1 recv s e h)
          (ground (arith, h, eq_iff t j, eq_iff p q))
    | inl h ↦ subscribed_by ok recv e h
  ]
]
  where
    subscribed_by :
        (ok' : Bool) (recv : Receiver.Receiver)
        → lookup t r.receivers ≡ some recv
        → sender_for t p r ≡ none
        → is_some (sender_for j q (subscribe ok' t p config r).0) ≡ (
            (ok' && is_some (lookup t r.receivers) && str_eq t j && str_eq p q)
            || is_some (sender_for j q r))
    subscribed_by true recv e h =
        ap is_some ((sender_for-subscribe t p config r e h).1 j q) ∙ ground (arith, e)
    subscribed_by false recv e h =
        ap (λ x. is_some (sender_for j q x.0)) ((subscribe_unchanged false t p config r).2 recv e h)

unsubscribes-published :
    (t p : String) (r : Router) (j : String)
    → lookup j (unsubscribe t p r).receivers ≡ lookup j r.receivers
unfolding unsubscribe remove_sender
unsubscribes-published t p r j = ground arith

forwards-published :
    (pool : _) (t : String) (buf : _) (n : _) (r : Router) (j : String)
    → lookup j (forward pool t buf n r).receivers ≡ lookup j r.receivers
unfolding forward
forwards-published pool t buf n r j = ground arith

forwards-subscribed :
    (pool : _) (t : String) (buf : _) (n : _) (r : Router) (j q : String)
    → is_some (sender_for j q (forward pool t buf n r)) ≡ is_some (sender_for j q r)
forwards-subscribed pool t buf n r j q = ground (arith, sender_for-forward pool t buf n j q r)

published-step :
    (c : Call) (r : Router) (j : String)
    → (view (step c r)).published j ≡ (meaning c (view r)).published j
unfolding view step meaning unsubscribe_all close lookup
published-step (adds recv) r j = adds-published recv r j
published-step (removes t) r j = removes-published t r j
published-step (subscribes ok t p config) r j = subscribes-published ok t p config r j
published-step (unsubscribes t p) r j = ap is_some (unsubscribes-published t p r j)
published-step (unsubscribes_all p) r j = refl
published-step (forwards pool t buf n) r j = ap is_some (forwards-published pool t buf n r j)
published-step closes r j = refl

subscribed-step :
    (c : Call) (r : Router) (j q : String)
    → (view (step c r)).subscribed j q ≡ (meaning c (view r)).subscribed j q
unfolding view step meaning close lookup
subscribed-step (adds recv) r j q = adds-subscribed recv r j q
subscribed-step (removes t) r j q = removes-subscribed t r j q
subscribed-step (subscribes ok t p config) r j q = subscribes-subscribed ok t p config r j q
subscribed-step (unsubscribes t p) r j q = ground (arith, sender_for-unsubscribe t p j q r)
subscribed-step (unsubscribes_all p) r j q = ground (arith, sender_for-unsubscribe_all p j q r)
subscribed-step (forwards pool t buf n) r j q = forwards-subscribed pool t buf n r j q
subscribed-step closes r j q = refl

-- Every call does to the view what it means.
view-step : (c : Call) (r : Router) → view (step c r) ≡ meaning c (view r)
view-step c r =
    view_ext (view (step c r)) (meaning c (view r)) (published-step c r) (subscribed-step c r)

view-run : (calls : List Call) (r : Router) → view (run calls r) ≡ meanings calls (view r)
unfolding run meanings
view-run [] r = refl
view-run (c ∷ rest) r = view-run rest (step c r) ∙ ap (meanings rest) (view-step c r)

view-new_router :
    (has_metrics : Bool)
    → view (new_router has_metrics) ≡ record { published = λ t. false; subscribed = λ t p. false }
unfolding view new_router lookup
view-new_router has_metrics = refl

-- After any calls on a new router, which tracks are published and who is subscribed to which is what the calls mean,
-- one after the other, from nothing on; this does not depend on senders, packets or the order of the maps.
pub view-run-new_router :
    (has_metrics : Bool) (calls : List Call)
    → view (run calls (new_router has_metrics))
      ≡ meanings calls (record { published = λ t. false; subscribed = λ t p. false })
view-run-new_router has_metrics calls =
    view-run calls (new_router has_metrics) ∙ ap (meanings calls) (view-new_router has_metrics)
