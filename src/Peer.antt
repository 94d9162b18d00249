-- ===== src/Peer.antt =====
-- internal/sfu/peer.go: one client. What the calls of pion answer during an operation is the record
-- `Pion`, since pion is not part of the repository. What the signalling session is handed through
-- `onNegotiate` is the log `sent`, oldest first; `spawned` counts the goroutines `go p.negotiate()`.
-- `address` tells the peers of a room apart, as a pointer does, also those of one name.
-- `negotiate` runs in the three sections between which its lock is free: `begin`, `offer` and `finish`.
pub mod Ops
pub mod Negotiation
pub mod Lifecycle
pub mod Serving
use mephi_sfu_server_project.Common.{
  ℕ, suc, ◌+◌, String, Bool, true, false, List, [], ◌∷◌, ◌++◌, Option, none, some, if◌then◌else◌,
  ◌||◌, ◌≡◌,
}
use mephi_sfu_server_project.Map.{Map}
use mephi_sfu_server_project.Sender.{SenderConfig, default_sender_config}
use mephi_sfu_server_project.Receiver.{Kind, ReceiverConfig, default_receiver_config}

pub data PeerState : Type 0 where
  fresh connecting connected disconnected failed closed : PeerState

-- `PeerState.String`
unfoldable pub state_string : PeerState → String
state_string fresh = "new"
state_string connecting = "connecting"
state_string connected = "connected"
state_string disconnected = "disconnected"
state_string failed = "failed"
state_string closed = "closed"

-- `webrtc.ICEServer`
pub record IceServer : Type 0 where
  pub urls : List String
  pub username : String
  pub credential : String

pub record PeerConfig : Type 0 where
  pub ice_servers : List IceServer
  pub receiver_config : ReceiverConfig
  pub sender_config : SenderConfig

abbrev pub default_peer_config : PeerConfig
default_peer_config = record {
  ice_servers =
      record { urls = "stun:stun.l.google.com:19302" ∷ []; username = ""; credential = "" } ∷ [];
  receiver_config = default_receiver_config;
  sender_config = default_sender_config;
}

pub data MessageKind : Type 0 where
  offer candidate : MessageKind

pub record NegotiationMessage : Type 0 where
  pub kind : MessageKind
  pub body : String

pub record Peer : Type 0 where
  pub address : ℕ
  pub id : String
  pub state : PeerState
  -- The tracks sent through the connection, each with pion's handle of its sender.
  pub rtp_senders : Map ℕ
  pub on_negotiate : Bool
  pub on_close : Bool
  pub negotiation_pending : Bool
  pub renegotiation_needed : Bool
  pub cancelled : Bool
  pub close_once : Bool
  pub config : PeerConfig
  pub sent : List NegotiationMessage
  pub spawned : ℕ

-- What pion answers during one operation: for a peer, or for a peer and a track.
pub record Pion : Type 0 where
  pub new_peer_connection : Bool
  pub new_track : Bool
  pub add_track : String → String → Option ℕ
  pub remove_track : ℕ → Bool
  pub stable : String → Bool
  pub create_offer : String → Option String
  pub create_answer : String → Option String
  pub set_local : String → Bool
  pub marshal : String → Option String
  pub set_remote : Bool
  pub add_candidate : Bool
  pub add_transceiver : Kind → Bool

-- `NewPeer`, once pion has made the connection.
unfoldable pub new_peer : ℕ → String → PeerConfig → Peer
new_peer address id config = record {
  address = address;
  id = id;
  state = fresh;
  rtp_senders = [];
  on_negotiate = false;
  on_close = false;
  negotiation_pending = false;
  renegotiation_needed = false;
  cancelled = false;
  close_once = false;
  config = config;
  sent = [];
  spawned = 0;
}

abbrev pub is_dead : PeerState → Bool
is_dead closed = true
is_dead failed = true
is_dead _ = false

-- The first section of `negotiate`: whether it goes on, and with a handler.
pub data Begun : Type 0 where
  stops : Begun
  goes : Bool → Begun

unfoldable pub begin_negotiation : Peer → Peer × Begun
begin_negotiation p =
    if is_dead p.state
    then (p, stops)
    else if p.negotiation_pending
    then (record p { renegotiation_needed = true }, stops)
    else (
      record p { negotiation_pending = true; renegotiation_needed = false },
      goes p.on_negotiate,
    )

-- The way out of `negotiate` on an error.
unfoldable pub abandon : Peer → Peer
abandon p = record p { negotiation_pending = false }

-- The way out where the connection waits for an answer.
unfoldable pub defer_negotiation : Peer → Peer
defer_negotiation p = record p { negotiation_pending = false; renegotiation_needed = true }

-- The offer of a stable connection: created, set, and written as JSON.
unfoldable pub make_offer : Pion → String → Option String
make_offer pion id = elim (pion.create_offer id) [
  | none ↦ none
  | some sdp ↦ if pion.set_local id then pion.marshal sdp else none
]

-- The last section: takes the lock again, and starts another round if one was asked for.
unfoldable pub finish_negotiation : Peer → Peer
finish_negotiation p =
    let q = record p { renegotiation_needed = false; negotiation_pending = false } in
    if p.renegotiation_needed then record q { spawned = suc p.spawned } else q

unfoldable pub send : MessageKind → String → Peer → Peer
send kind body p = record p { sent = p.sent ++ record { kind = kind; body = body } ∷ [] }

-- The middle section and the way out that follows from it.
unfoldable pub offer_negotiation : Pion → Bool → Peer → Peer
unfolding abandon defer_negotiation make_offer finish_negotiation send
offer_negotiation pion has_handler p =
    if has_handler
    then if pion.stable p.id
      then elim (make_offer pion p.id) [
        | none ↦ abandon p
        | some json ↦ finish_negotiation (send offer json p)
      ]
      else defer_negotiation p
    else abandon p

after_begin : Pion → Peer → Begun → Peer
unfolding offer_negotiation
after_begin pion p stops = p
after_begin pion p (goes has_handler) = offer_negotiation pion has_handler p

-- `negotiate`, where no other goroutine comes between its sections.
unfoldable pub negotiate : Pion → Peer → Peer
unfolding begin_negotiation after_begin
negotiate pion p = let (q, b) = begin_negotiation p in after_begin pion q b
