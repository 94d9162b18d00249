-- ===== src/Router/Forwarding.antt =====
-- What `forward` delivers, and histories of a router.
use mephi_sfu_server_project.Common.{
  ℕ, String, str_eq, Bool, List, [], ◌∷◌, Option, none, some, ◌≡◌, arith, Option-cases, inl, inr,
  if◌then◌else◌, eq_iff,
}
use mephi_sfu_server_project.Map.{Map, lookup, map_values}
use mephi_sfu_server_project.Map.Laws.{lookup-insert, lookup-map_values}
use mephi_sfu_server_project.Sender
use mephi_sfu_server_project.Sender.{Sender, SenderConfig, SenderPacket}
use mephi_sfu_server_project.Receiver.{Receiver}
use mephi_sfu_server_project.Router.{Router, new_router}
use mephi_sfu_server_project.Router.Ops.{
  add_receiver, remove_receiver, subscribe, unsubscribe, unsubscribe_all, forward, close,
}
use mephi_sfu_server_project.Router.Subscriptions.{sender_for}
use mephi_sfu_server_project.Router.Invariant.{Inv}
use mephi_sfu_server_project.Router.Invariant.Tracks.{
  new_router-Inv, add_receiver-Inv, remove_receiver-Inv,
}
use mephi_sfu_server_project.Router.Invariant.Senders.{
  subscribe-Inv, unsubscribe-Inv, unsubscribe_all-Inv,
}
use mephi_sfu_server_project.Router.Invariant.Whole.{forward-Inv, close-Inv}

-- What a packet does to the sender of one subscriber.
abbrev pub after_write : SenderPacket → List ℕ → ℕ → Option Sender → Option Sender
after_write pkt buf n none = none
after_write pkt buf n (some s) = some (Sender.write_rtp pkt buf n s)

module _ (pool : String → SenderPacket) (t : String) (buf : List ℕ) (n : ℕ) where
  forward_split :
      (j q : String) (m : Map Sender) (r : Router)
      → lookup t r.senders ≡ some m
      → sender_for j q (forward pool t buf n r)
        ≡ (if str_eq t j then after_write (pool q) buf n (sender_for j q r) else sender_for j q r)
  unfolding forward lookup
  forward_split j q [] r e = rw (e, forward) (ground (arith, eq_iff t j))
  forward_split j q (x ∷ rest) r e =
      rw (e, forward)
        (ground (
          arith,
          eq_iff t j,
          lookup-insert t j (map_values (λ p s. Sender.write_rtp (pool p) buf n s) (x ∷ rest))
              r.senders,
          lookup-map_values (λ p s. Sender.write_rtp (pool p) buf n s) q (x ∷ rest),
        ))

  -- Each subscriber of the track gets exactly one write of the packet, into its own pooled packet;
  -- the sender of a subscriber of any other track is as it was.
  pub sender_for-forward :
      (j q : String) (r : Router)
      → sender_for j q (forward pool t buf n r)
        ≡ (if str_eq t j then after_write (pool q) buf n (sender_for j q r) else sender_for j q r)
  unfolding forward lookup
  sender_for-forward j q r = elim (Option-cases (lookup t r.senders)) [
    | inl e ↦ rw (e, forward) (ground (arith, eq_iff t j))
    | inr (m, e) ↦ forward_split j q m r e
  ]

-- The calls that change a router.
pub data Call : Type 0 where
  adds : Receiver → Call
  removes : String → Call
  subscribes : Bool → String → String → SenderConfig → Call
  unsubscribes : String → String → Call
  unsubscribes_all : String → Call
  forwards : (String → SenderPacket) → String → List ℕ → ℕ → Call
  closes : Call

unfoldable pub step : Call → Router → Router
step (adds recv) r = add_receiver recv r
step (removes t) r = (remove_receiver t r).0
step (subscribes ok t p config) r = (subscribe ok t p config r).0
step (unsubscribes t p) r = unsubscribe t p r
step (unsubscribes_all p) r = unsubscribe_all p r
step (forwards pool t buf n) r = forward pool t buf n r
step closes r = close r

unfoldable pub run : List Call → Router → Router
unfolding step
run [] r = r
run (c ∷ rest) r = run rest (step c r)

step-Inv : (c : Call) (r : Router) → Inv r → Inv (step c r)
unfolding step
step-Inv (adds recv) r v = add_receiver-Inv recv r v
step-Inv (removes t) r v = remove_receiver-Inv t r v
step-Inv (subscribes ok t p config) r v = subscribe-Inv ok t p config r v
step-Inv (unsubscribes t p) r v = unsubscribe-Inv t p r v
step-Inv (unsubscribes_all p) r v = unsubscribe_all-Inv p r v
step-Inv (forwards pool t buf n) r v = forward-Inv pool buf n t r v
step-Inv closes r v = close-Inv r v

pub run-Inv : (calls : List Call) (r : Router) → Inv r → Inv (run calls r)
unfolding run
run-Inv [] r v = v
run-Inv (c ∷ rest) r v = run-Inv rest (step c r) (step-Inv c r v)

-- After any calls on a new router: each track with subscribers has a receiver, which carries the track's
-- name; each sender is addressed to its track and peer and is live; the gauge of subscriptions is the
-- number of those senders; and every sender that was taken away has been stopped.
pub run-new_router-Inv :
    (has_metrics : Bool) (calls : List Call) → Inv (run calls (new_router has_metrics))
run-new_router-Inv b calls = run-Inv calls (new_router b) (new_router-Inv b)
