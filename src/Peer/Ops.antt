-- ===== src/Peer/Ops.antt =====
-- The other operations of peer.go. Those that reach into the router take it and return it.
use mephi_sfu_server_project.Common.{
  suc, String, Bool, true, false, [], Option, none, some, if◌then◌else◌,
}
use mephi_sfu_server_project.Map.{lookup, insert, delete}
use mephi_sfu_server_project.Receiver.{TrackRemote, Receiver, new_receiver, audio, video}
use mephi_sfu_server_project.Router.{Router}
use mephi_sfu_server_project.Router.Ops
use mephi_sfu_server_project.Router.Ops.{Subscribed, no_track, failed, subscribed}
use mephi_sfu_server_project.Peer.{
  Peer, PeerState, Pion, connecting, connected, disconnected, candidate, closed, negotiate, send,
}

-- The errors that come from pion.
pub data PeerError : Type 0 where
  no_local_track no_rtp_sender not_removed not_remote no_transceiver not_candidate : PeerError

-- What follows `Subscribe` in `SubscribeToTrack`.
unfoldable pub track_answer :
    Pion → String → Router × Subscribed → Peer → Router × Peer × Option PeerError
track_answer pion t (r, failed) p = (r, p, some no_local_track)
track_answer pion t (r, no_track) p = (r, p, none)
track_answer pion t (r, subscribed s) p = elim (pion.add_track p.id t) [
  | none ↦ (Ops.unsubscribe t p.id r, p, some no_rtp_sender)
  | some handle ↦
      (r, negotiate pion (record p { rtp_senders = insert t handle p.rtp_senders }), none)
]

unfoldable pub subscribe_to_track : Pion → String → Router → Peer → Router × Peer × Option PeerError
unfolding track_answer
subscribe_to_track pion t r p =
    track_answer pion t (Ops.subscribe pion.new_track t p.id p.config.sender_config r) p

unfoldable pub unsubscribe_from_track :
    Pion → String → Router → Peer → Router × Peer × Option PeerError
unsubscribe_from_track pion t r p = elim (lookup t p.rtp_senders) [
  | none ↦ (r, p, none)
  | some handle ↦
      if pion.remove_track handle
      then (
        Ops.unsubscribe t p.id r,
        negotiate pion (record p { rtp_senders = delete t p.rtp_senders }),
        none,
      )
      else (r, p, some not_removed)
]

-- Whether the room's callback runs is the last component.
unfoldable pub close : Router → Peer → Router × Peer × Bool
close r p = if p.close_once then (r, p, false) else (
  Ops.unsubscribe_all p.id r,
  record p { close_once = true; state = closed; rtp_senders = []; cancelled = true },
  p.on_close,
)

-- `HandleAnswer`: an answer that pion takes starts the round that was put off.
unfoldable pub handle_answer : Pion → Peer → Peer × Option PeerError
handle_answer pion p =
    if pion.set_remote
    then (
      record p {
        renegotiation_needed = false;
        spawned = if p.renegotiation_needed then suc p.spawned else p.spawned;
      },
      none,
    )
    else (p, some not_remote)

-- `InitPublisher` adds the two transceivers to pion's connection, and stops at the first error.
unfoldable pub init_publisher : Pion → Peer → Peer × Option PeerError
init_publisher pion p =
    if pion.add_transceiver audio
    then if pion.add_transceiver video then (p, none) else (p, some no_transceiver)
    else (p, some no_transceiver)

-- The callback `OnNegotiationNeeded`, which pion runs after transceivers were added.
unfoldable pub on_negotiation_needed : Pion → Peer → Peer
on_negotiation_needed pion p = negotiate pion p

-- `HandleCandidate`
unfoldable pub handle_candidate : Pion → Peer → Peer × Option PeerError
handle_candidate pion p = if pion.add_candidate then (p, none) else (p, some not_candidate)

unfoldable pub set_on_negotiate : Peer → Peer
set_on_negotiate p = record p { on_negotiate = true }

unfoldable pub set_on_close : Peer → Peer
set_on_close p = record p { on_close = true }

-- The callback `OnICECandidate`; the last of the candidates is nil.
unfoldable pub on_ice_candidate : Option String → Peer → Peer
on_ice_candidate none p = p
on_ice_candidate (some json) p = if p.on_negotiate then send candidate json p else p

-- What a session, or pion, does to a peer without reaching into its room.
pub data PeerUpdate : Type 0 where
  listens : PeerUpdate
  answers negotiates : Pion → PeerUpdate
  gathers : Option String → PeerUpdate

unfoldable pub update_peer : PeerUpdate → Peer → Peer
unfolding set_on_negotiate handle_answer on_negotiation_needed on_ice_candidate
update_peer listens p = set_on_negotiate p
update_peer (answers pion) p = (handle_answer pion p).0
update_peer (negotiates pion) p = on_negotiation_needed pion p
update_peer (gathers json) p = on_ice_candidate json p

-- The states that pion reports.
pub data ConnectionState : Type 0 where
  pc_new pc_connecting pc_connected pc_disconnected pc_failed pc_closed : ConnectionState

-- The callback `OnConnectionStateChange`; a connection that failed or closed closes the peer.
unfoldable pub on_state_change : ConnectionState → Router → Peer → Router × Peer × Bool
unfolding close
on_state_change pc_new r p = (r, p, false)
on_state_change pc_connecting r p = (r, record p { state = connecting }, false)
on_state_change pc_connected r p = (r, record p { state = connected }, false)
on_state_change pc_disconnected r p = (r, record p { state = disconnected }, false)
on_state_change pc_failed r p = close r (record p { state = PeerState.failed })
on_state_change pc_closed r p = close r (record p { state = closed })

-- The callback `OnTrack` up to the wait: the receiver that is registered with the router.
unfoldable pub on_track : TrackRemote → Peer → Receiver
unfolding new_receiver
on_track track p = new_receiver track p.id p.config.receiver_config
