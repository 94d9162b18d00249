-- ===== src/Config.antt =====
-- internal/config/config.go: the configuration, its defaults and its validation. Durations are nanoseconds.
-- What reads YAML, the environment and numbers is a parameter.
pub mod Env
pub mod Validity
use mephi_sfu_server_project.Common.{
  ℕ, ◌*◌, String, str_eq, Bool, true, false, ◌&&◌, ◌||◌, not, List, [], ◌∷◌, Option, none, some,
  if◌then◌else◌, ℤ, pos, leb_int, eq_int,
}

pub record ServerConfig : Type 0 where
  pub host : String
  pub port : ℤ
  pub read_timeout : ℤ
  pub write_timeout : ℤ
  pub max_conns : ℤ

pub record SfuConfig : Type 0 where
  pub max_rooms : ℤ
  pub max_peers_per_room : ℤ
  pub pli_interval : ℤ
  pub sender_buf_size : ℤ

pub record TurnConfig : Type 0 where
  pub urls : List String
  pub username : String
  pub credential : String

pub record IceConfig : Type 0 where
  pub stun_servers : List String
  pub turn_servers : List TurnConfig

pub record ClusterConfig : Type 0 where
  pub enabled : Bool
  pub redis_addr : String
  pub redis_password : String
  pub redis_db : ℤ
  pub node_id : String
  pub heartbeat_interval : ℤ
  pub node_ttl : ℤ
  pub enable_cascading : Bool

pub record MetricsConfig : Type 0 where
  pub enabled : Bool
  pub port : ℤ

pub record KafkaConfig : Type 0 where
  pub enabled : Bool
  pub brokers : List String
  pub topic : String
  pub buffer_size : ℤ

pub record TurnServerConfig : Type 0 where
  pub enabled : Bool
  pub public_ip : String
  pub port : ℤ
  pub realm : String
  pub static_secret : String
  pub min_port : ℤ
  pub max_port : ℤ

pub record LogConfig : Type 0 where
  pub level : String

pub record Config : Type 0 where
  pub server : ServerConfig
  pub sfu : SfuConfig
  pub ice : IceConfig
  pub cluster : ClusterConfig
  pub metrics : MetricsConfig
  pub kafka : KafkaConfig
  pub turn_server : TurnServerConfig
  pub log : LogConfig

abbrev second : ℕ
second = 1000000000

-- `Default`
abbrev pub default_config : Config
default_config = record {
  server = record {
    host = "0.0.0.0";
    port = pos 8080;
    read_timeout = pos (10 * second);
    write_timeout = pos (10 * second);
    max_conns = pos 0;
  };
  sfu = record {
    max_rooms = pos 0;
    max_peers_per_room = pos 0;
    pli_interval = pos (2 * second);
    sender_buf_size = pos 100;
  };
  ice = record { stun_servers = "stun:stun.l.google.com:19302" ∷ []; turn_servers = [] };
  cluster = record {
    enabled = false;
    redis_addr = "localhost:6379";
    redis_password = "";
    redis_db = pos 0;
    node_id = "";
    heartbeat_interval = pos (10 * second);
    node_ttl = pos (30 * second);
    enable_cascading = true;
  };
  metrics = record { enabled = false; port = pos 9091 };
  kafka = record {
    enabled = false;
    brokers = "localhost:9092" ∷ [];
    topic = "sfu-events";
    buffer_size = pos 1000;
  };
  turn_server = record {
    enabled = false;
    public_ip = "127.0.0.1";
    port = pos 3478;
    realm = "mephi-sfu";
    static_secret = "mephi-sfu-secret-key-2026";
    min_port = pos 49152;
    max_port = pos 65535;
  };
  log = record { level = "info" };
}

pub data ConfigError : Type 0 where
  unreadable unparsed : ConfigError
  bad_server_port bad_pli_interval bad_sender_buf_size no_redis_addr same_metrics_port
        bad_log_level :
      ConfigError

abbrev pub is_log_level : String → Bool
is_log_level s = str_eq s "debug" || (str_eq s "info" || (str_eq s "warn" || str_eq s "error"))

unfoldable pub validate : Config → Option ConfigError
validate cfg =
    if leb_int cfg.server.port (pos 0) || not (leb_int cfg.server.port (pos 65535))
    then some bad_server_port
    else if leb_int cfg.sfu.pli_interval (pos 0)
    then some bad_pli_interval
    else if leb_int cfg.sfu.sender_buf_size (pos 0)
    then some bad_sender_buf_size
    else if cfg.cluster.enabled && str_eq cfg.cluster.redis_addr ""
    then some no_redis_addr
    else if cfg.metrics.enabled && eq_int cfg.metrics.port cfg.server.port
    then some same_metrics_port
    else if is_log_level cfg.log.level
    then none
    else some bad_log_level
