-- ===== src/Cascade.antt =====
-- internal/sfu/cascade.go: the bridge that carries the tracks of a room to another node. The senders
-- that it holds are those of the router under the peer `cascade-<node>`; the bridge keeps their tracks.
-- `published` logs the messages for the other node, oldest first.
use Prim.Native.String.{◌++◌ as str_append}
use mephi_sfu_server_project.Common.{
  ℕ, suc, String, Bool, true, false, List, [], ◌∷◌, ◌++◌, Option, none, some, if◌then◌else◌,
}
use mephi_sfu_server_project.Map.{Map, insert, delete, contains}
use mephi_sfu_server_project.Sender.{default_sender_config}
use mephi_sfu_server_project.Receiver.{Receiver, TrackRemote, new_receiver, default_receiver_config}
use mephi_sfu_server_project.Router.{Router}
use mephi_sfu_server_project.Router.Ops
use mephi_sfu_server_project.Router.Ops.{Subscribed, no_track, failed, subscribed}
use mephi_sfu_server_project.Peer.{Pion}

-- internal/cluster/messages.go
pub data ClusterMessageType : Type 0 where
  cascade_offer cascade_answer cascade_candidate : ClusterMessageType

pub record ClusterMessage : Type 0 where
  pub type : ClusterMessageType
  pub room_id : String
  pub from_node_id : String
  pub sdp : String
  pub sdp_type : String
  pub candidate : String
  pub sdp_mid : String
  pub sdp_mline_idx : ℕ

pub record CascadeBridge : Type 0 where
  pub room_id : String
  pub local_node_id : String
  pub remote_node_id : String
  pub senders : Map String
  pub is_initiator : Bool
  pub cancelled : Bool
  pub spawned : ℕ
  pub published : List ClusterMessage

-- `"cascade-" + nodeID`, the virtual peer of another node.
abbrev pub cascade_peer : String → String
cascade_peer node = str_append "cascade-" node

-- `NewCascadeBridge`, once pion has made the connection.
unfoldable pub new_cascade_bridge : String → String → String → Bool → CascadeBridge
new_cascade_bridge room_id local_node_id remote_node_id is_initiator = record {
  room_id = room_id;
  local_node_id = local_node_id;
  remote_node_id = remote_node_id;
  senders = [];
  is_initiator = is_initiator;
  cancelled = false;
  spawned = 0;
  published = [];
}

pub data CascadeError : Type 0 where
  no_local_track no_such_track no_rtp_sender : CascadeError

-- The bridge once it holds the sender of a track; the initiator starts a negotiation.
unfoldable pub hold_track : String → CascadeBridge → CascadeBridge
hold_track t b = record b {
  senders = insert t t b.senders;
  spawned = if b.is_initiator then suc b.spawned else b.spawned;
}

-- What follows `Subscribe` in `AddTrack`.
unfoldable pub bridge_answer :
    Pion
    → String
    → Router × Subscribed
    → CascadeBridge
    → Router × CascadeBridge × Option CascadeError
unfolding hold_track
bridge_answer pion t (r, failed) b = (r, b, some no_local_track)
bridge_answer pion t (r, no_track) b = (r, b, some no_such_track)
bridge_answer pion t (r, subscribed s) b = elim (pion.add_track (cascade_peer b.remote_node_id) t) [
  | none ↦ (
    Ops.unsubscribe t (cascade_peer b.remote_node_id) r,
    record b { senders = delete t b.senders },
    some no_rtp_sender,
  )
  | some handle ↦ (r, hold_track t b, none)
]

-- `AddTrack`
unfoldable pub add_track :
    Pion → String → Router → CascadeBridge → Router × CascadeBridge × Option CascadeError
unfolding bridge_answer
add_track pion t r b =
    if contains t b.senders
    then (r, b, none)
    else bridge_answer pion t
        (Ops.subscribe pion.new_track t (cascade_peer b.remote_node_id) default_sender_config r) b

-- The loop of `Close` over the senders of the bridge.
unfoldable pub release_tracks : String → Map String → Router → Router
release_tracks peer_id [] r = r
release_tracks peer_id ((t, s) ∷ rest) r = release_tracks peer_id rest (Ops.unsubscribe t peer_id r)

-- `Close`
unfoldable pub close : Router → CascadeBridge → Router × CascadeBridge
unfolding release_tracks
close r b =
    (release_tracks (cascade_peer b.remote_node_id) b.senders r, record b { cancelled = true })

-- The callback `OnTrack`: the receiver of a track that comes from the other node.
unfoldable pub on_track : TrackRemote → CascadeBridge → Receiver
unfolding new_receiver
on_track track b = new_receiver track (cascade_peer b.remote_node_id) default_receiver_config

abbrev empty_message : CascadeBridge → ClusterMessageType → ClusterMessage
empty_message b kind = record {
  type = kind;
  room_id = b.room_id;
  from_node_id = b.local_node_id;
  sdp = "";
  sdp_type = "";
  candidate = "";
  sdp_mid = "";
  sdp_mline_idx = 0;
}

-- `negotiate`: the offer that pion creates and takes is sent to the other node.
unfoldable pub negotiate : Pion → CascadeBridge → CascadeBridge
negotiate pion b =
    let peer_id = cascade_peer b.remote_node_id in
    elim (pion.create_offer peer_id) [
      | none ↦ b
      | some sdp ↦
          if pion.set_local peer_id
          then record b {
            published =
                b.published
                ++ record (empty_message b cascade_offer) { sdp = sdp; sdp_type = "offer" } ∷ [];
          }
          else b
    ]

-- The callback `OnNegotiationNeeded`.
unfoldable pub on_negotiation_needed : CascadeBridge → CascadeBridge
on_negotiation_needed b = if b.is_initiator then record b { spawned = suc b.spawned } else b

-- `HandleOffer`: pion takes the offer, creates an answer and sets it.
unfoldable pub handle_offer : Pion → CascadeBridge → Option String
handle_offer pion b =
    let peer_id = cascade_peer b.remote_node_id in
    if pion.set_remote
    then elim (pion.create_answer peer_id) [
      | none ↦ none
      | some sdp ↦ if pion.set_local peer_id then some sdp else none
    ]
    else none
