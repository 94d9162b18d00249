-- ===== src/Router/Invariant.antt =====
-- Well-formedness of the router, kept by every operation of Ops.antt.
pub mod Tracks
pub mod Senders
pub mod Whole
use mephi_sfu_server_project.Common.{
  ℕ, ◌+◌, String, Bool, true, false, List, [], Option, none, some, length, All, ◌≡◌, ◌≢◌,
}
use mephi_sfu_server_project.Map.{Map, lookup, Distinct}
use mephi_sfu_server_project.Map.Every.{Every}
use mephi_sfu_server_project.Sender.{Sender}
use mephi_sfu_server_project.Receiver.{Receiver}
use mephi_sfu_server_project.Router.{Router, Metrics, sender_count}

-- A sender that a track holds for a peer is addressed to them, and has not been stopped.
pub record Addressed (t peer_id : String) (s : Sender) : Type 0 where
  pub id : s.id ≡ t
  pub peer : s.peer_id ≡ peer_id
  pub live : s.close_once ≡ false

pub record Subscribers (t : String) (m : Map Sender) : Type 0 where
  pub distinct : Distinct m
  pub addressed : Every (Addressed t) m

-- The gauge of subscriptions is the number of live senders, and each sender that was ever counted
-- and is no longer live is in the log of stopped ones.
abbrev pub Counted : Option Metrics → ℕ → ℕ → Type 0
Counted none live stopped = Unit
Counted (some m) live stopped =
    (m.subscriptions_added ≡ m.subscriptions_removed + live) × (m.subscriptions_removed ≡ stopped)

abbrev pub IsStopped : Sender → Type 0
IsStopped s = s.cancelled ≡ true

pub record Inv (r : Router) : Type 0 where
  pub receivers_distinct : Distinct r.receivers
  pub senders_distinct : Distinct r.senders
  pub named : Every (λ t recv. recv.track_id ≡ t) r.receivers
  pub subscribers : Every Subscribers r.senders
  pub published : Every (λ t m. lookup t r.receivers ≢ none) r.senders
  pub counted : Counted r.metrics (sender_count r.senders) (length r.retired)
  pub stopped : All IsStopped r.retired
