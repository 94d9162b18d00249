-- ===== src/Router/Ops.antt =====
-- The operations of router.go.
use mephi_sfu_server_project.Common.{
  ℕ, ◌*◌, String, Bool, true, List, [], ◌∷◌, ◌++◌, Option, none, some, length, if◌then◌else◌, map,
}
use mephi_sfu_server_project.Map.{Map, lookup, insert, delete, values, map_values}
use mephi_sfu_server_project.Sender
use mephi_sfu_server_project.Sender.{Sender, SenderConfig, SenderPacket}
use mephi_sfu_server_project.Receiver
use mephi_sfu_server_project.Receiver.{Receiver, kind_string}
use mephi_sfu_server_project.Router.{
  Router, observe, track_added, track_removed, subscription_added, subscriptions_gone, add_label,
  sender_count,
}

-- `if r.senders[trackID] == nil { make }`
unfoldable pub ensure_senders : String → Map (Map Sender) → Map (Map Sender)
ensure_senders t m = elim (lookup t m) [ none ↦ insert t [] m | some _ ↦ m ]

-- Registers the receiver, installs its callback and starts it. The room's callback runs after it.
unfoldable pub add_receiver : Receiver → Router → Router
unfolding ensure_senders
add_receiver recv r = record r {
  receivers =
      insert recv.track_id (Receiver.start (Receiver.set_on_packet recv.track_id recv)) r.receivers;
  kinds = insert recv.track_id (kind_string recv.track_kind) r.kinds;
  senders = ensure_senders recv.track_id r.senders;
  metrics = observe track_added r.metrics;
}

abbrev pub stop_all : Map Sender → List Sender
stop_all m = map Sender.stop (values m)

-- Stops and drops every sender of a track.
unfoldable pub drop_senders : Option (Map Sender) → String → Router → Router
drop_senders none t r = r
drop_senders (some m) t r = record r {
  senders = delete t r.senders;
  metrics = observe (subscriptions_gone (length m)) r.metrics;
  retired = stop_all m ++ r.retired;
}

unfoldable pub drop_receiver : Receiver → String → Router → Router
drop_receiver recv t r = record r {
  receivers = delete t r.receivers;
  kinds = delete t r.kinds;
  metrics = observe track_removed r.metrics;
  stopped_receivers = Receiver.stop recv ∷ r.stopped_receivers;
}

-- The new router, and the receiver that was removed, for the room's callback.
unfoldable pub remove_receiver : String → Router → Router × Option Receiver
unfolding drop_senders drop_receiver
remove_receiver t r = elim (lookup t r.receivers) [
  | none ↦ (r, none)
  | some recv ↦
      (drop_receiver recv t (drop_senders (lookup t r.senders) t r), some (Receiver.stop recv))
]

-- `(*Sender, error)`: no such track, a failure of pion, or the sender.
pub data Subscribed : Type 0 where
  no_track failed : Subscribed
  subscribed : Sender → Subscribed

-- The senders of a track, empty if there are none.
abbrev pub senders_of : String → Map (Map Sender) → Map Sender
senders_of t m = elim (lookup t m) [ none ↦ [] | some inner ↦ inner ]

-- A new sender, registered and started; the receiver is asked for a key frame.
unfoldable pub add_sender : Receiver → String → String → SenderConfig → Router → Router × Subscribed
unfolding Sender.new_sender Sender.start
add_sender recv t peer_id config r =
    let sender = Sender.start (Sender.new_sender peer_id recv.codec t recv.stream_id config) in
    (
      record r {
        senders = insert t (insert peer_id sender (senders_of t r.senders)) r.senders;
        metrics = observe subscription_added r.metrics;
        receivers = insert t (Receiver.request_key_frame recv) r.receivers;
      },
      subscribed sender,
    )

-- `track_ok` tells whether pion makes the local track.
unfoldable pub subscribe : Bool → String → String → SenderConfig → Router → Router × Subscribed
unfolding add_sender
subscribe track_ok t peer_id config r = elim (lookup t r.receivers) [
  | none ↦ (r, no_track)
  | some recv ↦ elim (lookup peer_id (senders_of t r.senders)) [
    | some sender ↦ (r, subscribed sender)
    | none ↦ if track_ok then add_sender recv t peer_id config r else (r, failed)
  ]
]

-- Stops the sender of a peer and takes it out of the map `m` of a track.
unfoldable pub remove_sender : String → String → Map Sender → Sender → Router → Router
remove_sender t peer_id m sender r = record r {
  senders = insert t (delete peer_id m) r.senders;
  metrics = observe (subscriptions_gone 1) r.metrics;
  retired = Sender.stop sender ∷ r.retired;
}

unfoldable pub unsubscribe : String → String → Router → Router
unfolding remove_sender
unsubscribe t peer_id r = elim (lookup t r.senders) [
  | none ↦ r
  | some m ↦ elim (lookup peer_id m) [ none ↦ r | some sender ↦ remove_sender t peer_id m sender r ]
]

-- `GetSendersByPeer`
unfoldable pub senders_by_peer : String → Map (Map Sender) → List Sender
senders_by_peer peer_id [] = []
senders_by_peer peer_id ((t, m) ∷ rest) =
    let later = senders_by_peer peer_id rest in
    elim (lookup peer_id m) [ none ↦ later | some sender ↦ sender ∷ later ]

unfoldable pub unsubscribe_all : String → Router → Router
unfolding senders_by_peer
unsubscribe_all peer_id r = record r {
  senders = map_values (λ t m. delete peer_id m) r.senders;
  metrics = observe (subscriptions_gone (length (senders_by_peer peer_id r.senders))) r.metrics;
  retired = map Sender.stop (senders_by_peer peer_id r.senders) ++ r.retired;
}

-- `pool` gives the pooled packet that each subscriber's `WriteRTP` gets.
unfoldable pub forward : (String → SenderPacket) → String → List ℕ → ℕ → Router → Router
forward pool t buf n r = elim (lookup t r.senders) [
  | none ↦ r
  | some [] ↦ r
  | some (e ∷ rest) ↦
      let m : Map Sender = e ∷ rest in
      let kind : String = elim (lookup t r.kinds) [ none ↦ "" | some k ↦ k ] in
      record r {
        senders = insert t (map_values (λ p s. Sender.write_rtp (pool p) buf n s) m) r.senders;
        metrics =
            observe
              (λ x. record x {
                packets_forwarded = add_label kind (length m) x.packets_forwarded;
                bytes_forwarded = add_label kind (n * length m) x.bytes_forwarded;
              })
              r.metrics;
      }
]

-- Every sender of every track, stopped.
unfoldable pub stop_senders : Map (Map Sender) → List Sender
stop_senders [] = []
stop_senders ((t, m) ∷ rest) = stop_all m ++ stop_senders rest

-- `kinds` is not cleared, and no track is counted as removed.
unfoldable pub close : Router → Router
unfolding stop_senders sender_count
close r = record r {
  senders = [];
  receivers = [];
  cancelled = true;
  metrics = observe (subscriptions_gone (sender_count r.senders)) r.metrics;
  retired = stop_senders r.senders ++ r.retired;
  stopped_receivers = map Receiver.stop (values r.receivers) ++ r.stopped_receivers;
}
