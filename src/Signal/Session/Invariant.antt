-- ===== src/Signal/Session/Invariant.antt =====
-- Well-formedness of a session, kept by what it does alone.
use mephi_sfu_server_project.Common.{
  is_some, ◌-◌, ◌≤◌, String, Bool, [], ◌∷◌, Option, none, some, length, ◌≡◌, refl, arith,
  Option-cases, inl, inr, length-append,
}
use mephi_sfu_server_project.Peer.{NegotiationMessage}
use mephi_sfu_server_project.Signal.Message.{Json, Outgoing, ErrorCode}
use mephi_sfu_server_project.Signal.Session.{
  Session, RoomRef, PeerRef, new_session, queue_data, send_message, send_error, spawn_close,
  forward_negotiation, translate, write_round, ping_round, send_buf_size,
}
use mephi_sfu_server_project.Signal.Session.Handlers.{forget}

-- A session has a room exactly when it has a peer, its queue is within the channel, and its context is done
-- exactly when it has been closed.
pub record Live (s : Session) : Type 0 where
  pub paired : is_some s.room ≡ is_some s.peer
  pub bounded : length s.queue ≤ send_buf_size
  pub closed : s.cancelled ≡ s.close_once

pub queue_data-Live :
    (pick : Bool) (text : String) (s : Session) → Live s → Live (queue_data pick text s)
unfolding queue_data
queue_data-Live pick text s v =
    ground (arith, v.paired, v.bounded, v.closed, length-append s.queue (text ∷ []))

pub send_message-Live :
    (json : Json) (pick : Bool) (msg : Outgoing) (s : Session)
    → Live s
    → Live (send_message json pick msg s)
unfolding send_message
send_message-Live json pick msg s v = elim (Option-cases (json.encode msg)) [
  | inl e ↦ rw (e, send_message) v
  | inr (text, e) ↦ rw (e, send_message) (queue_data-Live pick text s v)
]

pub send_error-Live :
    (json : Json) (pick : Bool) (text : String) (code : ErrorCode) (s : Session)
    → Live s
    → Live (send_error json pick text code s)
unfolding send_error
send_error-Live json pick text code s v = send_message-Live json pick _ s v

pub forward_negotiation-Live :
    (json : Json) (pick : Bool) (msg : NegotiationMessage) (s : Session)
    → Live s
    → Live (forward_negotiation json pick msg s)
unfolding forward_negotiation
forward_negotiation-Live json pick msg s v =
    elim (Option-cases (translate json msg.kind msg.body)) [
      | inl e ↦ rw (e, forward_negotiation) v
      | inr (out, e) ↦ rw (e, forward_negotiation) (send_message-Live json pick out s v)
    ]

pub write_round-Live : (pick ok : Bool) (s : Session) → Live s → Live (write_round pick ok s)
unfolding write_round
write_round-Live pick ok s v = ground (arith, v.paired, v.bounded, v.closed)

pub ping_round-Live : (ok : Bool) (s : Session) → Live s → Live (ping_round ok s)
unfolding ping_round
ping_round-Live ok s v = ground (arith, v.paired, v.bounded, v.closed)

pub spawn_close-Live : (s : Session) → Live s → Live (spawn_close s)
spawn_close-Live s v = record { paired = v.paired; bounded = v.bounded; closed = v.closed }

pub pop_close-Live : (s : Session) → Live s → Live (record s { closing = s.closing - 1 })
pop_close-Live s v = record { paired = v.paired; bounded = v.bounded; closed = v.closed }

pub new_session-Live : Live new_session
unfolding new_session
new_session-Live = record { paired = refl; bounded = omega arith; closed = refl }

pub forget-Live :
    (room : Option RoomRef) (peer : Option PeerRef) (s : Session)
    → Live s
    → Live (forget room peer s)
forget-Live none peer s v = v
forget-Live (some ref) none s v = v
forget-Live (some ref) (some p) s v = record {
  paired = refl;
  bounded = v.bounded;
  closed = v.closed;
}
