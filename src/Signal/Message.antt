-- ===== src/Signal/Message.antt =====
-- internal/signal/message.go: the messages between a client and the server. JSON is a parameter.
use mephi_sfu_server_project.Common.{ℕ, String, Option}

-- What a client sends: the type of the envelope, and its payload as it came.
pub data MessageType : Type 0 where
  join answer candidate leave : MessageType
  unknown : String → MessageType

pub record Message : Type 0 where
  pub type : MessageType
  pub payload : String

pub record JoinPayload : Type 0 where
  pub room_id : String
  pub peer_id : String

pub record AnswerPayload : Type 0 where
  pub sdp : String
  pub sdp_type : String

pub record CandidatePayload : Type 0 where
  pub candidate : String
  pub sdp_mid : String
  pub sdp_mline_index : ℕ
  pub username_fragment : String

pub data ErrorCode : Type 0 where
  room_full peer_already_joined invalid_payload server_closed missing_fields : ErrorCode

-- The constants `ErrCode…`.
unfoldable pub code_string : ErrorCode → String
code_string room_full = "ROOM_FULL"
code_string peer_already_joined = "PEER_ALREADY_JOINED"
code_string invalid_payload = "INVALID_PAYLOAD"
code_string server_closed = "SERVER_CLOSED"
code_string missing_fields = "MISSING_FIELDS"

-- What the server sends, as the functions `New…Message` make it.
pub data Outgoing : Type 0 where
  error_message : String → ErrorCode → Outgoing
  offer_message : String → String → Outgoing
  candidate_message : CandidatePayload → Outgoing
  redirect_message : String → Outgoing

-- `webrtc.SessionDescription` and `webrtc.ICECandidateInit`; Go's nil pointers are `none`.
pub record Description : Type 0 where
  pub sdp : String
  pub sdp_type : String

pub record CandidateInit : Type 0 where
  pub candidate : String
  pub sdp_mid : Option String
  pub sdp_mline_index : Option ℕ
  pub username_fragment : Option String

-- What `encoding/json` reads, `none` where it fails, and what it writes.
pub record Json : Type 0 where
  pub read_message : String → Option Message
  pub read_join : String → Option JoinPayload
  pub read_answer : String → Option AnswerPayload
  pub read_candidate : String → Option CandidatePayload
  pub read_description : String → Option Description
  pub read_candidate_init : String → Option CandidateInit
  pub encode : Outgoing → Option String
