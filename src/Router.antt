-- ===== src/Router.antt =====
-- internal/sfu/router.go: the tracks of one room and their subscribers. The maps are those of
-- Map.antt. `retired` logs the senders that were stopped and dropped from the maps, newest first;
-- Go keeps them until their goroutine ends. The gauges of internal/metrics/metrics.go are counted
-- up and down apart, and a gauge is the difference.
pub mod Ops
pub mod Invariant
pub mod Subscriptions
pub mod Forwarding
pub mod Refinement
use mephi_sfu_server_project.Common.{
  ℕ, ◌+◌, ◌*◌, String, Bool, true, false, List, [], ◌∷◌, ◌++◌, Option, none, some, length,
  if◌then◌else◌, map,
}
use mephi_sfu_server_project.Map.{Map, lookup, insert, delete, values, map_values, total}
use mephi_sfu_server_project.Sender.{Sender}
use mephi_sfu_server_project.Receiver.{Receiver}

-- What one router contributes to the metrics.
pub record Metrics : Type 0 where
  pub tracks_added : ℕ
  pub tracks_removed : ℕ
  pub subscriptions_added : ℕ
  pub subscriptions_removed : ℕ
  pub packets_forwarded : Map ℕ
  pub bytes_forwarded : Map ℕ

pub record Router : Type 0 where
  pub receivers : Map Receiver
  pub senders : Map (Map Sender)
  pub kinds : Map String
  pub cancelled : Bool
  pub metrics : Option Metrics
  pub on_receiver_added : Bool
  pub on_receiver_removed : Bool
  pub retired : List Sender
  pub stopped_receivers : List Receiver

abbrev pub no_metrics : Metrics
no_metrics = record {
  tracks_added = 0;
  tracks_removed = 0;
  subscriptions_added = 0;
  subscriptions_removed = 0;
  packets_forwarded = [];
  bytes_forwarded = [];
}

-- `if r.metrics != nil`
abbrev pub observe {ℓ} : {M : Type ℓ} → (M → M) → Option M → Option M
observe f none = none
observe f (some m) = some (f m)

abbrev pub track_added : Metrics → Metrics
track_added m = record m { tracks_added = m.tracks_added + 1 }

abbrev pub track_removed : Metrics → Metrics
track_removed m = record m { tracks_removed = m.tracks_removed + 1 }

abbrev pub subscription_added : Metrics → Metrics
subscription_added m = record m { subscriptions_added = m.subscriptions_added + 1 }

-- `SubscriptionRemoved`, called once for each of `n` senders.
abbrev pub subscriptions_gone : ℕ → Metrics → Metrics
subscriptions_gone n m = record m { subscriptions_removed = m.subscriptions_removed + n }

-- `WithLabelValues(kind).Add(n)`
unfoldable pub add_label : String → ℕ → Map ℕ → Map ℕ
add_label kind n m = insert kind ((elim (lookup kind m) [ none ↦ 0 | some k ↦ k ]) + n) m

-- `NewRouter`; `has_metrics` tells whether metrics are collected.
unfoldable pub new_router : Bool → Router
new_router has_metrics = record {
  receivers = [];
  senders = [];
  kinds = [];
  cancelled = false;
  metrics = if has_metrics then some no_metrics else none;
  on_receiver_added = false;
  on_receiver_removed = false;
  retired = [];
  stopped_receivers = [];
}

-- The number of senders of one track, and of all.
unfoldable pub sender_count : Map (Map Sender) → ℕ
sender_count = total length

pub record RouterStats : Type 0 where
  pub receiver_count : ℕ
  pub senders : ℕ

unfoldable pub stats : Router → RouterStats
unfolding sender_count
stats r = record { receiver_count = length r.receivers; senders = sender_count r.senders }
