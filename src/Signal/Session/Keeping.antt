-- ===== src/Signal/Session/Keeping.antt =====
-- The handlers of a session keep the server and the session well-formed.
use mephi_sfu_server_project.Common.{
  String, str_eq, Bool, ◌&&◌, ◌||◌, Option, none, some, refl, Bool-cases, Option-cases, inl, inr,
  ◌==◌,
}
use mephi_sfu_server_project.Map.{lookup}
use mephi_sfu_server_project.Receiver.{audio, video}
use mephi_sfu_server_project.Peer.{Pion, default_peer_config}
use mephi_sfu_server_project.Peer.Ops as PeerOps
use mephi_sfu_server_project.Cluster.{Redis}
use mephi_sfu_server_project.Room.{Room, default_room_config}
use mephi_sfu_server_project.Room.Ops as RoomOps
use mephi_sfu_server_project.Room.Invariant.History.{Call, joins, leaves, updates}
use mephi_sfu_server_project.Server.{SfuServer}
use mephi_sfu_server_project.Server.Ops.{
  create_room, get_or_create_room, Place, local, lookup_failed, remote,
}
use mephi_sfu_server_project.Server.Invariant as ServerInvariant
use mephi_sfu_server_project.Server.Invariant.{
  create_room-Inv, on_room-Inv, get_or_create_room-Inv, new_sfu_server-Inv,
}
use mephi_sfu_server_project.Signal.Message.{
  Json, MessageType, join, answer, candidate, leave, unknown, JoinPayload, ErrorCode,
}
use mephi_sfu_server_project.Signal.Session.{Session, RoomRef, PeerRef, send_error}
use mephi_sfu_server_project.Signal.Session.Handlers.{
  enter_missing, Outcome, returns, panics, through, after_join, join_room, enter, redirect, route,
  handle_join, give_answer, handle_answer, handle_candidate, leave_room, handle_leave, dispatch,
  close, settle, read_round, place_of, join_text, join_code,
}
use mephi_sfu_server_project.Signal.Session.Invariant.{
  Live, send_message-Live, send_error-Live, spawn_close-Live, forget-Live,
}

-- Both the server and the session are well-formed, whatever the outcome.
pub record Fine {S : Type 0} (sv : SfuServer S) (s : Session) : Type 0 where
  pub server : ServerInvariant.Inv sv
  pub session : Live s

abbrev pub Sound : {S : Type 0} → Outcome S → Type 0
Sound (returns sv s) = Fine sv s
Sound (panics sv s) = Fine sv s

module _ {S : Type 0} (redis : Redis S) where
  through-Inv :
      (ref : RoomRef) (c : Call) (sv : SfuServer S)
      → ServerInvariant.Inv sv
      → ServerInvariant.Inv (through redis ref c sv)
  unfolding through
  through-Inv ref c sv v = elim (Option-cases (lookup ref.id sv.rooms)) [
    | inl e ↦ rw (e, through) v
    | inr (room, e) ↦ elim (Bool-cases (room.address == ref.address)) [
      | inl b ↦ rw (e, through, b) (on_room-Inv redis c ref.id sv v)
      | inr b ↦ rw (e, through, b) v
    ]
  ]

  leave_room-Inv :
      (room : Option RoomRef) (peer : Option PeerRef) (sv : SfuServer S)
      → ServerInvariant.Inv sv
      → ServerInvariant.Inv (leave_room redis room peer sv)
  unfolding leave_room
  leave_room-Inv none peer sv v = v
  leave_room-Inv (some ref) none sv v = v
  leave_room-Inv (some ref) (some p) sv v = through-Inv ref (leaves p.id) sv v

  module _ (pion : Pion) (json : Json) (pick : Bool) where
    told :
        (text : String) (code : ErrorCode) (sv : SfuServer S) (s : Session)
        → Fine sv s
        → Fine sv (send_error json pick text code s)
    told text code sv s v = record {
      server = v.server;
      session = send_error-Live json pick text code s v.session;
    }

    after_join-Sound :
        (payload : JoinPayload) (room : Room) (sv : SfuServer S) (s : Session)
        → Fine sv s
        → Sound (after_join redis pion json pick payload room sv s)
    unfolding after_join
    after_join-Sound payload room sv s v =
        let ref : RoomRef = record { id = payload.room_id; address = room.address } in
        let p : PeerRef = record { id = payload.peer_id; address = room.admitted } in
        let s' : Session = record s { room = some ref; peer = some p } in
        let live : Live s' = record {
          paired = refl;
          bounded = v.session.bounded;
          closed = v.session.closed;
        } in
        let listening =
          through-Inv ref (updates PeerOps.listens payload.peer_id room.admitted) sv v.server in
        elim (Bool-cases (pion.add_transceiver audio && pion.add_transceiver video)) [
          | inl e ↦
              rw (e, after_join)
                (record {
                  server =
                      through-Inv ref
                        (updates (PeerOps.negotiates pion) payload.peer_id room.admitted) _
                        listening;
                  session = live;
                })
          | inr e ↦
              rw (e, after_join) (told _ _ _ s' (record { server = listening; session = live }))
        ]

    join_room-Sound :
        (payload : JoinPayload) (sv : SfuServer S) (s : Session)
        → Fine sv s
        → Sound (join_room redis pion json pick payload sv s)
    unfolding join_room
    join_room-Sound payload sv s v = elim (Option-cases (lookup payload.room_id sv.rooms)) [
      | inl e ↦ rw (e, join_room) v
      | inr (room, e) ↦
          elim (Option-cases (RoomOps.join pion payload.peer_id default_peer_config room).1) [
            | inl ok ↦
                rw (e, join_room, ok)
                  (after_join-Sound payload room _ s (record {
                    server =
                        on_room-Inv redis (joins pion payload.peer_id default_peer_config)
                          payload.room_id sv v.server;
                    session = v.session;
                  }))
            | inr (err, bad) ↦ rw (e, join_room, bad) (told (join_text err) (join_code err) sv s v)
          ]
    ]

    enter-Sound :
        (payload : JoinPayload) (sv : SfuServer S) (s : Session)
        → Fine sv s
        → Sound (enter redis pion json pick payload sv s)
    unfolding enter
    enter-Sound payload sv s v =
        let g = get_or_create_room redis pion payload.room_id default_room_config sv in
        let w : Fine g.0 s = record {
          server =
              get_or_create_room-Inv redis pion payload.room_id default_room_config sv v.server;
          session = v.session;
        } in
        elim (Option-cases g.1) [
          | inl ok ↦ rw (ok, enter) (join_room-Sound payload g.0 s w)
          | inr (err, bad) ↦ rw (bad, enter) w
        ]

    enter_missing-Sound :
        (payload : JoinPayload) (sv : SfuServer S) (s : Session)
        → Fine sv s
        → Sound (enter_missing redis pion json pick payload sv s)
    unfolding enter_missing
    enter_missing-Sound payload sv s v =
        let g = create_room redis pion payload.room_id default_room_config sv in
        let w : Fine g.0 s = record {
          server = create_room-Inv redis pion payload.room_id default_room_config sv v.server;
          session = v.session;
        } in
        elim (Option-cases g.1) [
          | inl ok ↦ rw (ok, enter_missing) (join_room-Sound payload g.0 s w)
          | inr (err, bad) ↦ rw (bad, enter_missing) w
        ]

    route-Sound :
        (place : Place) (payload : JoinPayload) (sv : SfuServer S) (s : Session)
        → Fine sv s
        → Sound (route redis pion json pick place payload sv s)
    unfolding route redirect
    route-Sound local payload sv s v = enter-Sound payload sv s v
    route-Sound lookup_failed payload sv s v = enter-Sound payload sv s v
    route-Sound (remote addr) payload sv s v = record {
      server = v.server;
      session = spawn_close-Live _ (send_message-Live json pick _ s v.session);
    }

    handle_join-Sound :
        (raw : String) (sv : SfuServer S) (s : Session)
        → Fine sv s
        → Sound (handle_join redis pion json pick raw sv s)
    unfolding handle_join
    handle_join-Sound raw sv s v = elim (Option-cases (json.read_join raw)) [
      | inl e ↦ rw (e, handle_join) (told _ _ sv s v)
      | inr (payload, e) ↦
          elim (Bool-cases (str_eq payload.room_id "" || str_eq payload.peer_id "")) [
            | inl b ↦ rw (e, handle_join, b) (told _ _ sv s v)
            | inr b ↦
                rw (e, handle_join, b)
                  (route-Sound (place_of redis pion json pick payload.room_id sv) payload sv s v)
          ]
    ]

    give_answer-Sound :
        (p : PeerRef) (sv : SfuServer S) (s : Session)
        → Fine sv s
        → Sound (give_answer redis pion json pick p sv s)
    unfolding give_answer
    give_answer-Sound p sv s v = elim (Option-cases s.room) [
      | inl e ↦ elim (Bool-cases pion.set_remote) [
        | inl b ↦ simp (e, give_answer, b) v
        | inr b ↦ simp (e, give_answer, b) (told _ _ sv s v)
      ]
      | inr (ref, e) ↦
          let sv' = through redis ref (updates (PeerOps.answers pion) p.id p.address) sv in
          let w : Fine sv' s = record {
            server = through-Inv ref (updates (PeerOps.answers pion) p.id p.address) sv v.server;
            session = v.session;
          } in
          elim (Bool-cases pion.set_remote) [
            | inl b ↦ simp (e, give_answer, b) w
            | inr b ↦ simp (e, give_answer, b) (told _ _ sv' s w)
          ]
    ]

    handle_answer-Sound :
        (raw : String) (sv : SfuServer S) (s : Session)
        → Fine sv s
        → Sound (handle_answer redis pion json pick raw sv s)
    unfolding handle_answer
    handle_answer-Sound raw sv s v = elim (Option-cases (json.read_answer raw)) [
      | inl e ↦ simp (e, handle_answer) (told _ _ sv s v)
      | inr (payload, e) ↦ elim (Option-cases s.peer) [
        | inl f ↦ simp (e, handle_answer, f) (told _ _ sv s v)
        | inr (p, f) ↦ simp (e, handle_answer, f) (give_answer-Sound p sv s v)
      ]
    ]

    handle_candidate-Sound :
        (raw : String) (sv : SfuServer S) (s : Session)
        → Fine sv s
        → Sound (handle_candidate redis pion json pick raw sv s)
    unfolding handle_candidate
    handle_candidate-Sound raw sv s v = elim (Option-cases (json.read_candidate raw)) [
      | inl e ↦ simp (e, handle_candidate) (told _ _ sv s v)
      | inr (payload, e) ↦ elim (Option-cases s.peer) [
        | inl f ↦ simp (e, handle_candidate, f) (told _ _ sv s v)
        | inr (p, f) ↦ simp (e, handle_candidate, f) v
      ]
    ]

    dispatch-Sound :
        (type : MessageType) (payload : String) (sv : SfuServer S) (s : Session)
        → Fine sv s
        → Sound (dispatch redis pion json pick (record { type = type; payload = payload }) sv s)
    unfolding dispatch handle_leave
    dispatch-Sound join payload sv s v = handle_join-Sound payload sv s v
    dispatch-Sound answer payload sv s v = handle_answer-Sound payload sv s v
    dispatch-Sound candidate payload sv s v = handle_candidate-Sound payload sv s v
    dispatch-Sound leave payload sv s v = record {
      server = leave_room-Inv s.room s.peer sv v.server;
      session = forget-Live s.room s.peer s v.session;
    }
    dispatch-Sound (unknown t) payload sv s v = told _ _ sv s v

  -- What a pair of a server and a session keeps.
  pub close-Fine :
      (sv : SfuServer S) (s : Session) → Fine sv s → Fine (close redis sv s).0 (close redis sv s).1
  unfolding close
  close-Fine sv s v = elim (Bool-cases s.close_once) [
    | inl e ↦ simp (e, close) v
    | inr e ↦
        simp (e, close)
          (record {
            server = leave_room-Inv s.room s.peer sv v.server;
            session = record {
              paired = v.session.paired;
              bounded = v.session.bounded;
              closed = refl;
            };
          })
  ]

  settle-Fine : (o : Outcome S) → Sound o → Fine (settle redis o).0 (settle redis o).1
  settle-Fine (returns sv s) v = v
  settle-Fine (panics sv s) v = close-Fine sv s v

  pub read_round-Fine :
      (pion : Pion) (json : Json) (pick : Bool) (input : Option String) (sv : SfuServer S)
      (s : Session)
      → Fine sv s
      → Fine
          (read_round redis pion json pick input sv s).0
          (read_round redis pion json pick input sv s).1
  unfolding read_round
  read_round-Fine pion json pick input sv s v = elim (Bool-cases s.cancelled) [
    | inl e ↦ simp (e, read_round) (close-Fine sv s v)
    | inr e ↦ elim (Option-cases input) [
      | inl f ↦ simp (e, read_round, f) (close-Fine sv s v)
      | inr (data_, f) ↦ elim (Option-cases (json.read_message data_)) [
        | inl g ↦ simp (e, read_round, f, g) (told pion json pick _ _ sv s v)
        | inr (msg, g) ↦
            simp (e, read_round, f, g)
              (settle-Fine _ (dispatch-Sound pion json pick msg.type msg.payload sv s v))
      ]
    ]
  ]

  pub enter_missing-Fine :
      (pion : Pion) (json : Json) (pick : Bool) (payload : JoinPayload) (sv : SfuServer S)
      (s : Session)
      → Fine sv s
      → Fine
          (settle redis (enter_missing redis pion json pick payload sv s)).0
          (settle redis (enter_missing redis pion json pick payload sv s)).1
  enter_missing-Fine pion json pick payload sv s v =
      settle-Fine _ (enter_missing-Sound pion json pick payload sv s v)
