-- ===== src/Tests/Data.antt =====
-- Concrete peers, tracks and rooms, and what pion answers in them.
use mephi_sfu_server_project.Common.{String, true, false, List, [], ◌∷◌, Option, none, some}
use mephi_sfu_server_project.Map.{lookup}
use mephi_sfu_server_project.Cluster.{Redis, found, missing}
use mephi_sfu_server_project.Server.{ServerConfig}
use mephi_sfu_server_project.Sender.{idle}
use mephi_sfu_server_project.Receiver.{Receiver, video, default_receiver_config}
use mephi_sfu_server_project.Peer.{Peer, Pion, default_peer_config, fresh}
use mephi_sfu_server_project.Room.{Room, RoomConfig, new_room}
use mephi_sfu_server_project.Room.Invariant.History.{Call, joins, publishes, run}

abbrev pub pion_ok : Pion
pion_ok = record {
  new_peer_connection = true;
  new_track = true;
  add_track = λ id t. some 7;
  remove_track = λ h. true;
  stable = λ id. true;
  create_offer = λ id. some "offer";
  create_answer = λ id. some "answer";
  set_local = λ id. true;
  marshal = λ sdp. some sdp;
  set_remote = true;
  add_candidate = true;
  add_transceiver = λ kind. true;
}

-- A connection that takes no track.
abbrev pub pion_refusing : Pion
pion_refusing = record pion_ok { add_track = λ id t. none }

abbrev pub camera : Receiver
camera = record {
  track_id = "cam";
  stream_id = "s1";
  track_kind = video;
  owner_peer_id = "alice";
  codec = "video/VP8";
  on_packet = none;
  cancelled = false;
  close_once = false;
  read_loop = idle;
  pli_loop = idle;
  packets_received = 0;
  bytes_received = 0;
  key_frame_requests = 0;
  config = default_receiver_config;
}

abbrev pub nobody : Peer
nobody = record {
  address = 0;
  id = "nobody";
  state = fresh;
  rtp_senders = [];
  on_negotiate = true;
  on_close = false;
  negotiation_pending = false;
  renegotiation_needed = false;
  cancelled = false;
  close_once = false;
  config = default_peer_config;
  sent = [];
  spawned = 0;
}

-- What a lookup found, or else a default.
abbrev pub the {ℓ} : {A : Type ℓ} → A → Option A → A
the a none = a
the a (some b) = b

abbrev pub room_config : RoomConfig
room_config = record { max_peers = 3 }

-- Alice is in and sends her camera; then Bob joins.
abbrev pub alice_joins : List Call
alice_joins = joins pion_ok "alice" default_peer_config ∷ []

abbrev pub alice_sends : List Call
alice_sends = joins pion_ok "alice" default_peer_config ∷ publishes pion_ok camera ∷ []

abbrev pub bob_joins : List Call
bob_joins =
    joins pion_ok "alice" default_peer_config
    ∷ publishes pion_ok camera
    ∷ joins pion_ok "bob" default_peer_config
    ∷ []

abbrev pub both_join : List Call
both_join = joins pion_ok "alice" default_peer_config ∷ joins pion_ok "bob" default_peer_config ∷ []

abbrev pub both_in : List Call
both_in =
    joins pion_ok "alice" default_peer_config
    ∷ joins pion_ok "bob" default_peer_config
    ∷ publishes pion_ok camera
    ∷ []

abbrev pub room_after : List Call → Room
room_after calls = run calls (new_room 0 "demo" room_config true true)

-- A Redis that keeps its keys in an association list.
abbrev pub redis : Redis (List (String × String))
redis = record {
  get = λ s key. elim (lookup key s) [ none ↦ missing | some v ↦ found v ];
  set = λ s key v. ((key, v) ∷ s, true);
  del = λ s key. (s, true);
  expire = λ s key. (s, true);
  node_keys = λ s. some [];
  decode = λ v. none;
}

abbrev pub server_config : ServerConfig
server_config = record {
  max_rooms = 2;
  has_metrics = true;
  has_kafka = true;
  cluster_enabled = true;
  cluster_enable_cascading = true;
  cluster_node = some "node-1";
  has_room_router = true;
}
