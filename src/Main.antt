-- ===== src/Main.antt =====
-- cmd/sfud/main.go: what the parts of the node are made from. A Go `int` limit that is not positive means no limit,
-- and so does 0 here; `format` writes a port, and `uuid` is the random part of a name. The clients of Redis and of
-- Kafka, the HTTP server and the signals of the operating system are outside.
pub mod Ice
pub mod Loops
use Prim.Native.String.{◌++◌ as str_append}
use mephi_sfu_server_project.Common.{
  ℕ, String, str_eq, Bool, true, false, List, [], ◌∷◌, ◌++◌, Option, none, some, if◌then◌else◌, map,
  ℤ, pos, negsuc,
}
use mephi_sfu_server_project.Config.{Config, TurnConfig}
use mephi_sfu_server_project.Kafka.{AsyncProducer, new_async_producer}
use mephi_sfu_server_project.Peer.{PeerConfig, IceServer, default_peer_config}
use mephi_sfu_server_project.Room.{RoomConfig}
use mephi_sfu_server_project.Server.{ServerConfig}
use mephi_sfu_server_project.Signal.Node.{Node, new_node}

abbrev pub limit : ℤ → ℕ
limit (pos n) = n
limit (negsuc n) = 0

-- `buildRoomConfig`
unfoldable pub build_room_config : Config → RoomConfig
build_room_config cfg = record { max_peers = limit cfg.sfu.max_peers_per_room }

unfoldable pub stun_server : List String → List IceServer
stun_server [] = []
stun_server (url ∷ rest) = record { urls = url ∷ rest; username = ""; credential = "" } ∷ []

unfoldable pub turn_server : TurnConfig → IceServer
turn_server t = record { urls = t.urls; username = t.username; credential = t.credential }

-- `buildICEServers`
unfoldable pub build_ice_servers : Config → List IceServer
unfolding stun_server turn_server
build_ice_servers cfg = stun_server cfg.ice.stun_servers ++ map turn_server cfg.ice.turn_servers

-- `buildPeerConfig`
unfoldable pub build_peer_config : Config → PeerConfig
unfolding build_ice_servers
build_peer_config cfg = record default_peer_config {
  ice_servers = build_ice_servers cfg;
  receiver_config = record { pli_interval = limit cfg.sfu.pli_interval };
  sender_config = record { write_channel_size = limit cfg.sfu.sender_buf_size };
}

unfoldable pub node_id : String → Config → String
node_id uuid cfg =
    if str_eq cfg.cluster.node_id "" then str_append "sfu-node-" uuid else cfg.cluster.node_id

-- The address under which other nodes reach this one.
unfoldable pub advertise_addr : (ℤ → String) → Config → String
advertise_addr format cfg =
    let host : String = if str_eq cfg.server.host "0.0.0.0" then "127.0.0.1" else cfg.server.host in
    str_append host (str_append ":" (format cfg.server.port))

-- The producer is there in any case; its writer only where Kafka is enabled.
unfoldable pub kafka_producer : Config → AsyncProducer
kafka_producer cfg = new_async_producer cfg.kafka.enabled (limit cfg.kafka.buffer_size)

-- `sfu.ServerConfig`. What `build_room_config` and `build_peer_config` make goes with it, and no operation of the
-- server or of a session reads it: sessions use the defaults.
unfoldable pub server_config : String → Config → ServerConfig
unfolding node_id
server_config uuid cfg = record {
  max_rooms = limit cfg.sfu.max_rooms;
  has_metrics = cfg.metrics.enabled;
  has_kafka = true;
  cluster_enabled = cfg.cluster.enabled;
  cluster_enable_cascading = cfg.cluster.enable_cascading;
  cluster_node = if cfg.cluster.enabled then some (node_id uuid cfg) else none;
  has_room_router = cfg.cluster.enabled;
}

-- The node, once it serves.
unfoldable pub start_node : {S : Type 0} → String → Config → S → Node S
unfolding server_config
start_node uuid cfg store = new_node (server_config uuid cfg) store (limit cfg.server.max_conns)
