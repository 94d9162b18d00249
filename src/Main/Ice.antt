-- ===== src/Main/Ice.antt =====
-- The ICE servers that clients are offered, and those that `main` configures for peers.
use mephi_sfu_server_project.Common.{
  ℕ, String, str_eq, false, List, [], ◌∷◌, ◌++◌, some, map, ◌≡◌, refl, sym, ◌∙◌, ap,
}
use mephi_sfu_server_project.Config.{Config, TurnConfig}
use mephi_sfu_server_project.Peer.{IceServer}
use mephi_sfu_server_project.Turn.{Crypto}
use mephi_sfu_server_project.Signal.IceServers as IceServers
use mephi_sfu_server_project.Signal.IceServers.{
  IceServerJson, handle_ice_servers, own_turns, external,
}
use mathlib.Core.List.{map-append}
use mephi_sfu_server_project.Main.{build_ice_servers, stun_server, turn_server}

-- An ICE server as it goes into JSON.
pub server_json : (String → List ℕ) → IceServer → IceServerJson
server_json bytes s = record {
  urls = map bytes s.urls;
  username = bytes s.username;
  credential = bytes s.credential;
}

module _ (bytes : String → List ℕ) (empty : bytes "" ≡ []) where
  stun_server_json :
      (urls : List String)
      → map (server_json bytes) (stun_server urls) ≡ IceServers.stun_servers bytes urls
  unfolding server_json stun_server IceServers.stun_servers
  stun_server_json [] = refl
  stun_server_json (url ∷ rest) =
      λ i. record { urls = map bytes (url ∷ rest); username = empty i; credential = empty i } ∷ []

  turn_server_json :
      (ts : List TurnConfig)
      → map (server_json bytes) (map turn_server ts) ≡ map (external bytes) ts
  unfolding server_json turn_server external
  turn_server_json [] = refl
  turn_server_json (t ∷ rest) = ap (◌∷◌ (external bytes t)) (turn_server_json rest)

  -- Where the TURN server of the node is off, clients are offered exactly the ICE servers that `main` configures for
  -- the peers of the node, in the same order.
  pub handle_ice_servers-build_ice_servers :
      (c : Crypto) (now : ℕ) (cfg : Config) (method : String) (query_peer_id : List ℕ)
      → cfg.turn_server.enabled ≡ false
      → str_eq method "OPTIONS" ≡ false
      → handle_ice_servers bytes c now cfg method query_peer_id
        ≡ some (map (server_json bytes) (build_ice_servers cfg))
  unfolding handle_ice_servers own_turns build_ice_servers
  handle_ice_servers-build_ice_servers c now cfg method query_peer_id off get =
      rw (get, off)
        (ap some (
          sym (
            map-append (server_json bytes) (stun_server cfg.ice.stun_servers)
              (map turn_server cfg.ice.turn_servers)
            ∙ ap (λ x. x ++ map (server_json bytes) (map turn_server cfg.ice.turn_servers))
                (stun_server_json cfg.ice.stun_servers)
            ∙ ap (λ x. IceServers.stun_servers bytes cfg.ice.stun_servers ++ x)
                (turn_server_json cfg.ice.turn_servers))))
