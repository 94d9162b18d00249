-- ===== src/Signal/IceServers.antt =====
-- internal/signal/websocket.go: `/ice-servers`, the ICE servers that a client is offered. Texts are lists of bytes, as
-- in Turn.antt, and `bytes` gives those of a configured string and of the literals.
use mephi_sfu_server_project.Common.{
  str_eq, ℕ, ◌+◌, ◌<◌, ◌≡◌, refl, ◌^◌, String, true, false, List, [], ◌∷◌, ◌++◌, Option, none, some,
  if◌then◌else◌, map, ℤ, pos, negsuc, leb,
}
use mephi_sfu_server_project.Config.{Config, TurnConfig}
use mephi_sfu_server_project.Turn
use mephi_sfu_server_project.Turn.{Crypto, decimal, generate_credentials, unix, auth_handler}
use mephi_sfu_server_project.Turn.Auth.{auth_handler-generate_credentials}

-- `IceServerJSON`
pub record IceServerJson : Type 0 where
  pub urls : List (List ℕ)
  pub username : List ℕ
  pub credential : List ℕ

-- `24*time.Hour`
abbrev pub day : ℕ
day = 86400000000000

abbrev decimal_int : ℤ → List ℕ
decimal_int (pos n) = decimal n
decimal_int (negsuc n) = 45 ∷ decimal (n + 1)

module _ (bytes : String → List ℕ) where
  -- What `main` gives the TURN server.
  unfoldable pub turn_config : Config → Turn.TurnServerConfig
  turn_config cfg = record {
    enabled = cfg.turn_server.enabled;
    public_ip = bytes cfg.turn_server.public_ip;
    port = cfg.turn_server.port;
    realm = bytes cfg.turn_server.realm;
    static_secret = bytes cfg.turn_server.static_secret;
    min_port = cfg.turn_server.min_port;
    max_port = cfg.turn_server.max_port;
  }

  unfoldable pub stun_servers : List String → List IceServerJson
  stun_servers [] = []
  stun_servers (url ∷ rest) =
      record { urls = map bytes (url ∷ rest); username = []; credential = [] } ∷ []

  unfoldable pub external : TurnConfig → IceServerJson
  external t = record {
    urls = map bytes t.urls;
    username = bytes t.username;
    credential = bytes t.credential;
  }

  -- `turn:%s:%d?transport=udp`
  unfoldable pub turn_url : Config → List ℕ
  turn_url cfg =
      bytes "turn:"
      ++ bytes cfg.turn_server.public_ip
      ++ bytes ":"
      ++ decimal_int cfg.turn_server.port
      ++ bytes "?transport=udp"

  -- The TURN server of this node, with credentials for a day.
  unfoldable pub own_turn : Crypto → ℕ → Config → List ℕ → IceServerJson
  unfolding turn_url
  own_turn c now cfg peer_id =
      let (username, password) =
        generate_credentials c now peer_id day (bytes cfg.turn_server.static_secret) in
      record { urls = turn_url cfg ∷ []; username = username; credential = password }

  -- It stands in front of those of others, where it is enabled.
  unfoldable pub own_turns : Crypto → ℕ → Config → List ℕ → List IceServerJson → List IceServerJson
  unfolding own_turn
  own_turns c now cfg peer_id others =
      if cfg.turn_server.enabled then own_turn c now cfg peer_id ∷ others else others

  unfoldable pub name_of : List ℕ → List ℕ
  name_of [] = bytes "anonymous"
  name_of (b ∷ rest) = b ∷ rest

  -- `handleICEServers`: what the body holds, `none` where there is none.
  unfoldable pub handle_ice_servers :
      Crypto → ℕ → Config → String → List ℕ → Option (List IceServerJson)
  unfolding stun_servers own_turns external name_of
  handle_ice_servers c now cfg method query_peer_id =
      if str_eq method "OPTIONS"
      then none
      else some (
          stun_servers cfg.ice.stun_servers
          ++ own_turns c now cfg (name_of query_peer_id) (map external cfg.ice.turn_servers))

  -- Where the TURN server of the node is enabled, the servers that a client is offered hold one with a name and a
  -- password that this TURN server takes for a day, by the second, and no longer; its configuration is the one that
  -- `main` gives it, and the time of expiry is within an int64.
  pub handle_ice_servers-auth_handler :
      (c : Crypto) (now : ℕ) (cfg : Config) (method : String) (query_peer_id : List ℕ)
      → cfg.turn_server.enabled ≡ true
      → str_eq method "OPTIONS" ≡ false
      → unix (now + day) < 2 ^ 63
      → (before : List IceServerJson) × (after : List IceServerJson) × (s : IceServerJson)
        × (handle_ice_servers c now cfg method query_peer_id ≡ some (before ++ s ∷ after))
        × ((later : ℕ) (realm : List ℕ)
            → auth_handler c (turn_config cfg) later s.username realm ≡ (
                if leb (unix later) (unix (now + day))
                then some (c.auth_key s.username realm s.credential)
                else none))
  unfolding handle_ice_servers own_turns own_turn turn_config
  handle_ice_servers-auth_handler c now cfg method query_peer_id enabled get h = (
    stun_servers cfg.ice.stun_servers,
    map external cfg.ice.turn_servers,
    own_turn c now cfg (name_of query_peer_id),
    rw (get, enabled) refl,
    λ later realm.
        auth_handler-generate_credentials c (turn_config cfg) now later day (name_of query_peer_id)
          realm h,
  )
