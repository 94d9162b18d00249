-- ===== src/Config/Env.antt =====
-- `applyEnv` and `Load` of config.go.
use mephi_sfu_server_project.Common.{
  String, str_eq, Bool, ◌||◌, List, Option, none, some, if◌then◌else◌, ℤ, ◌≡◌, refl, arith,
  Bool-cases, inl, inr,
}
use mephi_sfu_server_project.Config.{
  Config, ServerConfig, SfuConfig, ClusterConfig, MetricsConfig, KafkaConfig, TurnServerConfig,
  LogConfig, ConfigError, unreadable, unparsed, default_config, validate,
}

-- What the outside gives: `os.Getenv`, empty for a variable that is not set; `strconv.Atoi`, `none` on an error;
-- and `strings.Split` at commas.
pub record Environment : Type 0 where
  pub getenv : String → String
  pub atoi : String → Option ℤ
  pub split : String → List String

-- What `os.ReadFile` says of the file.
pub data File : Type 0 where
  not_there not_readable : File
  content : String → File

module _ (env : Environment) where
  -- `if v := os.Getenv(name); v != ""`, with what becomes of the value.
  abbrev pub override {ℓ} : {A : Type ℓ} → (String → A → A) → String → A → A
  override use_value name old =
      let v = env.getenv name in if str_eq v "" then old else use_value v old

  abbrev pub string_of : String → String → String
  string_of v old = v

  -- A text that is not a number is passed over.
  abbrev pub int_of : String → ℤ → ℤ
  int_of v old = elim (env.atoi v) [ none ↦ old | some n ↦ n ]

  abbrev pub bool_of : String → Bool → Bool
  bool_of v old = str_eq v "true" || (str_eq v "1" || str_eq v "yes")

  abbrev pub list_of : String → List String → List String
  list_of v old = env.split v

  env_server : ServerConfig → ServerConfig
  env_server c = record c {
    host = override string_of "SERVER_HOST" c.host;
    port = override int_of "SERVER_PORT" c.port;
    max_conns = override int_of "SERVER_MAX_CONNS" c.max_conns;
  }

  env_sfu : SfuConfig → SfuConfig
  env_sfu c = record c {
    max_rooms = override int_of "SFU_MAX_ROOMS" c.max_rooms;
    max_peers_per_room = override int_of "SFU_MAX_PEERS" c.max_peers_per_room;
  }

  env_cluster : ClusterConfig → ClusterConfig
  env_cluster c = record c {
    enabled = override bool_of "CLUSTER_ENABLED" c.enabled;
    redis_addr = override string_of "CLUSTER_REDIS_ADDR" c.redis_addr;
    redis_password = override string_of "CLUSTER_REDIS_PASSWORD" c.redis_password;
    node_id = override string_of "CLUSTER_NODE_ID" c.node_id;
    enable_cascading = override bool_of "CLUSTER_ENABLE_CASCADING" c.enable_cascading;
  }

  env_metrics : MetricsConfig → MetricsConfig
  env_metrics c = record {
    enabled = override bool_of "METRICS_ENABLED" c.enabled;
    port = override int_of "METRICS_PORT" c.port;
  }

  env_kafka : KafkaConfig → KafkaConfig
  env_kafka c = record {
    enabled = override bool_of "KAFKA_ENABLED" c.enabled;
    brokers = override list_of "KAFKA_BROKERS" c.brokers;
    topic = override string_of "KAFKA_TOPIC" c.topic;
    buffer_size = override int_of "KAFKA_BUFFER_SIZE" c.buffer_size;
  }

  env_turn_server : TurnServerConfig → TurnServerConfig
  env_turn_server c = record {
    enabled = override bool_of "TURN_ENABLED" c.enabled;
    public_ip = override string_of "TURN_PUBLIC_IP" c.public_ip;
    port = override int_of "TURN_PORT" c.port;
    realm = override string_of "TURN_REALM" c.realm;
    static_secret = override string_of "TURN_STATIC_SECRET" c.static_secret;
    min_port = override int_of "TURN_MIN_PORT" c.min_port;
    max_port = override int_of "TURN_MAX_PORT" c.max_port;
  }

  env_log : LogConfig → LogConfig
  env_log c = record { level = override string_of "LOG_LEVEL" c.level }

  unfoldable pub apply_env : Config → Config
  unfolding env_server env_sfu env_cluster env_metrics env_kafka env_turn_server env_log
  apply_env cfg = record cfg {
    server = env_server cfg.server;
    sfu = env_sfu cfg.sfu;
    cluster = env_cluster cfg.cluster;
    metrics = env_metrics cfg.metrics;
    kafka = env_kafka cfg.kafka;
    turn_server = env_turn_server cfg.turn_server;
    log = env_log cfg.log;
  }

  unfoldable pub check_config : Config → Option Config × Option ConfigError
  check_config cfg = elim (validate cfg) [ none ↦ (some cfg, none) | some e ↦ (none, some e) ]

  -- `Load`; `parse` is `yaml.Unmarshal` into the defaults.
  unfoldable pub load :
      (String → Config → Option Config) → File → Option Config × Option ConfigError
  unfolding check_config apply_env
  load parse not_there = check_config (apply_env default_config)
  load parse not_readable = (none, some unreadable)
  load parse (content data_) = elim (parse data_ default_config) [
    | none ↦ (none, some unparsed)
    | some cfg ↦ check_config (apply_env cfg)
  ]

  override_twice {ℓ} :
      {A : Type ℓ} (use_value : String → A → A) (name : String) (old : A)
      → ((v : String) (x : A) → use_value v (use_value v x) ≡ use_value v x)
      → override use_value name (override use_value name old) ≡ override use_value name old
  override_twice use_value name old h = elim (Bool-cases (str_eq (env.getenv name) "")) [
    | inl e ↦ rw e refl
    | inr e ↦ rw e (h (env.getenv name) old)
  ]

  int_twice : (v : String) (x : ℤ) → int_of v (int_of v x) ≡ int_of v x
  int_twice v x = ground arith

  bool_twice : (v : String) (x : Bool) → bool_of v (bool_of v x) ≡ bool_of v x
  bool_twice v x = refl

  env_server_twice : (c : ServerConfig) → env_server (env_server c) ≡ env_server c
  unfolding env_server
  env_server_twice c = λ i. record {
    host = override_twice string_of "SERVER_HOST" c.host (λ v x. refl) i;
    port = override_twice int_of "SERVER_PORT" c.port int_twice i;
    read_timeout = c.read_timeout;
    write_timeout = c.write_timeout;
    max_conns = override_twice int_of "SERVER_MAX_CONNS" c.max_conns int_twice i;
  }

  env_sfu_twice : (c : SfuConfig) → env_sfu (env_sfu c) ≡ env_sfu c
  unfolding env_sfu
  env_sfu_twice c = λ i. record {
    max_rooms = override_twice int_of "SFU_MAX_ROOMS" c.max_rooms int_twice i;
    max_peers_per_room = override_twice int_of "SFU_MAX_PEERS" c.max_peers_per_room int_twice i;
    pli_interval = c.pli_interval;
    sender_buf_size = c.sender_buf_size;
  }

  env_cluster_twice : (c : ClusterConfig) → env_cluster (env_cluster c) ≡ env_cluster c
  unfolding env_cluster
  env_cluster_twice c = λ i. record {
    enabled = override_twice bool_of "CLUSTER_ENABLED" c.enabled bool_twice i;
    redis_addr = override_twice string_of "CLUSTER_REDIS_ADDR" c.redis_addr (λ v x. refl) i;
    redis_password =
        override_twice string_of "CLUSTER_REDIS_PASSWORD" c.redis_password (λ v x. refl) i;
    redis_db = c.redis_db;
    node_id = override_twice string_of "CLUSTER_NODE_ID" c.node_id (λ v x. refl) i;
    heartbeat_interval = c.heartbeat_interval;
    node_ttl = c.node_ttl;
    enable_cascading =
        override_twice bool_of "CLUSTER_ENABLE_CASCADING" c.enable_cascading bool_twice i;
  }

  env_metrics_twice : (c : MetricsConfig) → env_metrics (env_metrics c) ≡ env_metrics c
  unfolding env_metrics
  env_metrics_twice c = λ i. record {
    enabled = override_twice bool_of "METRICS_ENABLED" c.enabled bool_twice i;
    port = override_twice int_of "METRICS_PORT" c.port int_twice i;
  }

  env_kafka_twice : (c : KafkaConfig) → env_kafka (env_kafka c) ≡ env_kafka c
  unfolding env_kafka
  env_kafka_twice c = λ i. record {
    enabled = override_twice bool_of "KAFKA_ENABLED" c.enabled bool_twice i;
    brokers = override_twice list_of "KAFKA_BROKERS" c.brokers (λ v x. refl) i;
    topic = override_twice string_of "KAFKA_TOPIC" c.topic (λ v x. refl) i;
    buffer_size = override_twice int_of "KAFKA_BUFFER_SIZE" c.buffer_size int_twice i;
  }

  env_turn_server_twice :
      (c : TurnServerConfig) → env_turn_server (env_turn_server c) ≡ env_turn_server c
  unfolding env_turn_server
  env_turn_server_twice c = λ i. record {
    enabled = override_twice bool_of "TURN_ENABLED" c.enabled bool_twice i;
    public_ip = override_twice string_of "TURN_PUBLIC_IP" c.public_ip (λ v x. refl) i;
    port = override_twice int_of "TURN_PORT" c.port int_twice i;
    realm = override_twice string_of "TURN_REALM" c.realm (λ v x. refl) i;
    static_secret = override_twice string_of "TURN_STATIC_SECRET" c.static_secret (λ v x. refl) i;
    min_port = override_twice int_of "TURN_MIN_PORT" c.min_port int_twice i;
    max_port = override_twice int_of "TURN_MAX_PORT" c.max_port int_twice i;
  }

  env_log_twice : (c : LogConfig) → env_log (env_log c) ≡ env_log c
  unfolding env_log
  env_log_twice c =
      λ i. record { level = override_twice string_of "LOG_LEVEL" c.level (λ v x. refl) i }

  -- The environment overrides a configuration once and for all: applying it again changes nothing, also where
  -- a variable holds no number.
  pub apply_env_twice : (cfg : Config) → apply_env (apply_env cfg) ≡ apply_env cfg
  unfolding apply_env
  apply_env_twice cfg = λ i. record {
    ice = cfg.ice;
    server = env_server_twice cfg.server i;
    sfu = env_sfu_twice cfg.sfu i;
    cluster = env_cluster_twice cfg.cluster i;
    metrics = env_metrics_twice cfg.metrics i;
    kafka = env_kafka_twice cfg.kafka i;
    turn_server = env_turn_server_twice cfg.turn_server i;
    log = env_log_twice cfg.log i;
  }

  override_unset {ℓ} :
      {A : Type ℓ} (use_value : String → A → A) (name : String) (old : A)
      → env.getenv name ≡ ""
      → override use_value name old ≡ old
  override_unset use_value name old e = rw e refl

  env_server_unset :
      ((name : String) → env.getenv name ≡ "") → (c : ServerConfig) → env_server c ≡ c
  unfolding env_server
  env_server_unset h c = λ i. record {
    host = override_unset string_of "SERVER_HOST" c.host (h "SERVER_HOST") i;
    port = override_unset int_of "SERVER_PORT" c.port (h "SERVER_PORT") i;
    read_timeout = c.read_timeout;
    write_timeout = c.write_timeout;
    max_conns = override_unset int_of "SERVER_MAX_CONNS" c.max_conns (h "SERVER_MAX_CONNS") i;
  }

  env_sfu_unset : ((name : String) → env.getenv name ≡ "") → (c : SfuConfig) → env_sfu c ≡ c
  unfolding env_sfu
  env_sfu_unset h c = λ i. record {
    max_rooms = override_unset int_of "SFU_MAX_ROOMS" c.max_rooms (h "SFU_MAX_ROOMS") i;
    max_peers_per_room =
        override_unset int_of "SFU_MAX_PEERS" c.max_peers_per_room (h "SFU_MAX_PEERS") i;
    pli_interval = c.pli_interval;
    sender_buf_size = c.sender_buf_size;
  }

  env_cluster_unset :
      ((name : String) → env.getenv name ≡ "") → (c : ClusterConfig) → env_cluster c ≡ c
  unfolding env_cluster
  env_cluster_unset h c = λ i. record {
    enabled = override_unset bool_of "CLUSTER_ENABLED" c.enabled (h "CLUSTER_ENABLED") i;
    redis_addr =
        override_unset string_of "CLUSTER_REDIS_ADDR" c.redis_addr (h "CLUSTER_REDIS_ADDR") i;
    redis_password =
        override_unset string_of "CLUSTER_REDIS_PASSWORD" c.redis_password
          (h "CLUSTER_REDIS_PASSWORD") i;
    redis_db = c.redis_db;
    node_id = override_unset string_of "CLUSTER_NODE_ID" c.node_id (h "CLUSTER_NODE_ID") i;
    heartbeat_interval = c.heartbeat_interval;
    node_ttl = c.node_ttl;
    enable_cascading =
        override_unset bool_of "CLUSTER_ENABLE_CASCADING" c.enable_cascading
          (h "CLUSTER_ENABLE_CASCADING") i;
  }

  env_metrics_unset :
      ((name : String) → env.getenv name ≡ "") → (c : MetricsConfig) → env_metrics c ≡ c
  unfolding env_metrics
  env_metrics_unset h c = λ i. record {
    enabled = override_unset bool_of "METRICS_ENABLED" c.enabled (h "METRICS_ENABLED") i;
    port = override_unset int_of "METRICS_PORT" c.port (h "METRICS_PORT") i;
  }

  env_kafka_unset : ((name : String) → env.getenv name ≡ "") → (c : KafkaConfig) → env_kafka c ≡ c
  unfolding env_kafka
  env_kafka_unset h c = λ i. record {
    enabled = override_unset bool_of "KAFKA_ENABLED" c.enabled (h "KAFKA_ENABLED") i;
    brokers = override_unset list_of "KAFKA_BROKERS" c.brokers (h "KAFKA_BROKERS") i;
    topic = override_unset string_of "KAFKA_TOPIC" c.topic (h "KAFKA_TOPIC") i;
    buffer_size = override_unset int_of "KAFKA_BUFFER_SIZE" c.buffer_size (h "KAFKA_BUFFER_SIZE") i;
  }

  env_turn_server_unset :
      ((name : String) → env.getenv name ≡ "") → (c : TurnServerConfig) → env_turn_server c ≡ c
  unfolding env_turn_server
  env_turn_server_unset h c = λ i. record {
    enabled = override_unset bool_of "TURN_ENABLED" c.enabled (h "TURN_ENABLED") i;
    public_ip = override_unset string_of "TURN_PUBLIC_IP" c.public_ip (h "TURN_PUBLIC_IP") i;
    port = override_unset int_of "TURN_PORT" c.port (h "TURN_PORT") i;
    realm = override_unset string_of "TURN_REALM" c.realm (h "TURN_REALM") i;
    static_secret =
        override_unset string_of "TURN_STATIC_SECRET" c.static_secret (h "TURN_STATIC_SECRET") i;
    min_port = override_unset int_of "TURN_MIN_PORT" c.min_port (h "TURN_MIN_PORT") i;
    max_port = override_unset int_of "TURN_MAX_PORT" c.max_port (h "TURN_MAX_PORT") i;
  }

  env_log_unset : ((name : String) → env.getenv name ≡ "") → (c : LogConfig) → env_log c ≡ c
  unfolding env_log
  env_log_unset h c =
      λ i. record { level = override_unset string_of "LOG_LEVEL" c.level (h "LOG_LEVEL") i }

  -- Where no variable is set, the configuration stays as it was.
  pub apply_env_unset :
      ((name : String) → env.getenv name ≡ "") → (cfg : Config) → apply_env cfg ≡ cfg
  unfolding apply_env
  apply_env_unset h cfg = λ i. record {
    ice = cfg.ice;
    server = env_server_unset h cfg.server i;
    sfu = env_sfu_unset h cfg.sfu i;
    cluster = env_cluster_unset h cfg.cluster i;
    metrics = env_metrics_unset h cfg.metrics i;
    kafka = env_kafka_unset h cfg.kafka i;
    turn_server = env_turn_server_unset h cfg.turn_server i;
    log = env_log_unset h cfg.log i;
  }
