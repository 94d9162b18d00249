-- ===== src/Signal/Session.antt =====
-- internal/signal/handler.go: the session of one client, between its WebSocket and the server. A session
-- points to its room and its peer by their names and addresses. The queue `send` is the list of the encoded
-- messages, oldest first; `closing` counts the goroutines `go s.close()`; `written` logs what the WebSocket took.
-- `SetReadDeadline` and pings go to the WebSocket alone.
pub mod Handlers
pub mod Invariant
pub mod Keeping
pub mod Outcomes
use Prim.Native.String.{◌++◌ as str_append}
use mephi_sfu_server_project.Common.{
  ℕ, suc, String, Bool, true, false, not, ◌&&◌, List, [], ◌∷◌, ◌++◌, Option, none, some, length,
  if◌then◌else◌, ltb,
}
use mephi_sfu_server_project.Peer.{NegotiationMessage, MessageKind, offer, candidate}
use mephi_sfu_server_project.Signal.Message.{
  Json, Outgoing, ErrorCode, error_message, offer_message, candidate_message, CandidateInit,
  CandidatePayload, Description,
}

-- A pointer to a room.
pub record RoomRef : Type 0 where
  pub id : String
  pub address : ℕ

-- A pointer to a peer.
pub record PeerRef : Type 0 where
  pub id : String
  pub address : ℕ

abbrev pub send_buf_size : ℕ
send_buf_size = 64

pub record Session : Type 0 where
  pub room : Option RoomRef
  pub peer : Option PeerRef
  pub queue : List String
  pub cancelled : Bool
  pub close_once : Bool
  pub closing : ℕ
  pub written : List String
  pub writing : Bool

-- `NewSession`
unfoldable pub new_session : Session
new_session = record {
  room = none;
  peer = none;
  queue = [];
  cancelled = false;
  close_once = false;
  closing = 0;
  written = [];
  writing = true;
}

-- The `select` of `sendMessage`: where both the queue has room and the context is done, Go picks at random, and
-- `pick` tells whether it queues.
unfoldable pub queue_data : Bool → String → Session → Session
queue_data pick json s =
    if ltb (length s.queue) send_buf_size
    then if s.cancelled
      then if pick then record s { queue = s.queue ++ json ∷ [] } else s
      else record s { queue = s.queue ++ json ∷ [] }
    else if s.cancelled
    then s
    else record s { closing = suc s.closing }

unfoldable pub send_message : Json → Bool → Outgoing → Session → Session
unfolding queue_data
send_message json pick msg s = elim (json.encode msg) [
  | none ↦ s
  | some text ↦ queue_data pick text s
]

unfoldable pub send_error : Json → Bool → String → ErrorCode → Session → Session
unfolding send_message
send_error json pick text code s = send_message json pick (error_message text code) s

-- `go s.close()`
abbrev pub spawn_close : Session → Session
spawn_close s = record s { closing = suc s.closing }

abbrev or_empty : Option String → String
or_empty none = ""
or_empty (some t) = t

abbrev or_zero : Option ℕ → ℕ
or_zero none = 0
or_zero (some n) = n

-- What the client is told of a negotiation message.
unfoldable pub translate : Json → MessageKind → String → Option Outgoing
translate json offer body = elim (json.read_description body) [
  | none ↦ none
  | some d ↦ some (offer_message d.sdp d.sdp_type)
]
translate json candidate body = elim (json.read_candidate_init body) [
  | none ↦ none
  | some c ↦ some (
      candidate_message (record {
        candidate = c.candidate;
        sdp_mid = or_empty c.sdp_mid;
        sdp_mline_index = or_zero c.sdp_mline_index;
        username_fragment = or_empty c.username_fragment;
      }))
]

-- `forwardNegotiation`
unfoldable pub forward_negotiation : Json → Bool → NegotiationMessage → Session → Session
unfolding translate send_message
forward_negotiation json pick msg s = elim (translate json msg.kind msg.body) [
  | none ↦ s
  | some out ↦ send_message json pick out s
]

-- A round of `writeLoop` while it runs: `pick` tells whether its `select` takes the end of the context where it has
-- come, and `ok` whether the WebSocket takes the message. An error ends the loop, and the session stays open.
unfoldable pub write_round : Bool → Bool → Session → Session
write_round pick ok s =
    if s.writing
    then if s.cancelled && pick then record s { writing = false } else elim s.queue [
      | [] ↦ s
      | json ∷ rest ↦
          if ok
          then record s { queue = rest; written = s.written ++ json ∷ [] }
          else record s { queue = rest; writing = false }
    ]
    else s

-- The ping of `writeLoop`.
unfoldable pub ping_round : Bool → Session → Session
ping_round ok s = if s.writing && not ok then record s { writing = false } else s
