-- ===== src/Tests/Loads.antt =====
-- The theorems on the TURN server, the ICE servers and the load generator.
use mephi_sfu_server_project.Common.{
  ℕ, zero, suc, ◌+◌, ◌≤◌, String, str_eq, true, List, [], ◌∷◌, ◌++◌, none, some, ◌≡◌, refl, arith,
  leb, if◌then◌else◌, map, pos,
}
use mephi_sfu_server_project.Config.{Config, default_config}
use mephi_sfu_server_project.Turn.{
  TurnServerConfig, Crypto, unix, generate_credentials, auth_handler,
}
use mephi_sfu_server_project.Turn.Auth.{auth_handler-generate_credentials}
use mephi_sfu_server_project.Signal.IceServers.{
  IceServerJson, day, turn_config, handle_ice_servers, handle_ice_servers-auth_handler,
}
use mephi_sfu_server_project.Main.{build_ice_servers}
use mephi_sfu_server_project.Main.Ice.{server_json, handle_ice_servers-build_ice_servers}
use mephi_sfu_server_project.Loadtest.{
  Attempt, Client, ClientResult, Metrics, Verdict, failed, too_many_redirects, new_client, run,
  timed_out, settled, offer, redirect,
}
use mephi_sfu_server_project.Loadtest.Accounting.{IsOver}
use mephi_sfu_server_project.Loadtest.Termination.{timed, run_ends}
use mephi_sfu_server_project.Loadtest.Redirects.{joins}
use mephi_sfu_server_project.Loadtest.Runner.{RunnerConfig, tick, ramp, new_ramp}
use mephi_sfu_server_project.Loadtest.Balance.{IsFair, ramp-new_ramp-IsFair}
use mephi_sfu_server_project.Loadtest.Report.{Report, build_report}
use mephi_sfu_server_project.Loadtest.Totals.{IsTrue, build_report-IsTrue}

abbrev crypto : Crypto
crypto = record {
  hmac_sha1 = λ secret text. secret ++ text;
  base64 = λ text. text;
  auth_key = λ name realm password. name ++ realm ++ password;
}

abbrev turn_server_config : TurnServerConfig
turn_server_config = record {
  enabled = true;
  public_ip = 49 ∷ [];
  port = pos 3478;
  realm = 114 ∷ [];
  static_secret = 115 ∷ [];
  min_port = pos 49152;
  max_port = pos 65535;
}

-- The peer `p:1`, for an hour.
auth_handler-generate_credentials_example :
    auth_handler crypto turn_server_config 2000000000
      (generate_credentials crypto 1000000000
        (112 ∷ 58 ∷ 49 ∷ [])
        3600000000000
        turn_server_config.static_secret).0
      (114 ∷ [])
    ≡ (if leb (unix 2000000000) (unix (1000000000 + 3600000000000))
        then some (
            crypto.auth_key
              (generate_credentials crypto 1000000000
                (112 ∷ 58 ∷ 49 ∷ [])
                3600000000000
                turn_server_config.static_secret).0
              (114 ∷ [])
              (generate_credentials crypto 1000000000
                (112 ∷ 58 ∷ 49 ∷ [])
                3600000000000
                turn_server_config.static_secret).1)
        else none)
auth_handler-generate_credentials_example =
    auth_handler-generate_credentials crypto turn_server_config 1000000000 2000000000 3600000000000
      (112 ∷ 58 ∷ 49 ∷ []) (114 ∷ []) (omega arith)

-- A coding of texts that tells the empty one.
abbrev bytes : String → List ℕ
bytes text = if str_eq text "" then [] else 120 ∷ []

abbrev with_turn : Config
with_turn = record default_config {
  turn_server = record (default_config.turn_server) { enabled = true };
}

handle_ice_servers-auth_handler_example :
    (before : List IceServerJson) × (after : List IceServerJson) × (s : IceServerJson)
    × (handle_ice_servers bytes crypto 0 with_turn "GET" [] ≡ some (before ++ s ∷ after))
    × ((later : ℕ) (realm : List ℕ)
        → auth_handler crypto (turn_config bytes with_turn) later s.username realm ≡ (
            if leb (unix later) (unix (0 + day))
            then some (crypto.auth_key s.username realm s.credential)
            else none))
handle_ice_servers-auth_handler_example =
    handle_ice_servers-auth_handler bytes crypto 0 with_turn "GET" [] refl refl (omega arith)

handle_ice_servers-build_ice_servers_example :
    handle_ice_servers bytes crypto 0 default_config "GET" []
    ≡ some (map (server_json bytes) (build_ice_servers default_config))
handle_ice_servers-build_ice_servers_example =
    handle_ice_servers-build_ice_servers bytes refl crypto 0 default_config "GET" [] refl refl

abbrev no_metrics : Metrics
no_metrics = record {
  clients_spawned = 0;
  clients_up = 0;
  clients_down = 0;
  clients_failed = 0;
  connection_times = [];
  errors_total = [];
}

abbrev connects : Attempt
connects = record {
  dials = true;
  registers_codecs = true;
  makes_connection = true;
  makes_video = true;
  makes_audio = true;
  adds_video = true;
  sends_join = true;
  signaling = offer (some "sdp") ∷ settled ∷ [];
  is_connected = true;
  connection_time = 250;
  holding = offer (some "sdp") ∷ timed_out ∷ [];
}

-- The first attempt is redirected, and the others connect.
abbrev world : ℕ → String → Attempt
world zero addr = record connects { signaling = redirect (some "ws://other/ws") ∷ [] }
world (suc n) addr = connects

-- Every attempt is redirected to where it was.
abbrev carousel : ℕ → String → Attempt
carousel n addr = record connects { signaling = redirect (some addr) ∷ [] }

abbrev round_and_round : Client × Verdict
round_and_round =
    run (λ n addr. timed (carousel n addr)) "ws://here/ws" (new_client "peer-1" (some no_metrics))

run_ends_example :
    IsOver round_and_round.1
    × (joins round_and_round.0.sent ≤ joins (new_client "peer-1" (some no_metrics)).sent + 5)
    × (round_and_round.1 ≡ failed too_many_redirects
        → joins round_and_round.0.sent ≡ joins (new_client "peer-1" (some no_metrics)).sent + 5)
run_ends_example = run_ends carousel "ws://here/ws" (new_client "peer-1" (some no_metrics))

-- It is redirected on and on, and gives up.
gives_up : round_and_round.1 ≡ failed too_many_redirects
unfolding run new_client
gives_up = refl

abbrev after_redirect : Client
after_redirect = (run world "ws://here/ws" (new_client "peer-1" (some no_metrics))).0

abbrev runner_config : RunnerConfig
runner_config = record {
  addr = "ws://a/ws";
  addrs = "ws://a/ws" ∷ "ws://b/ws" ∷ [];
  total_clients = 3;
  rooms = 2;
  room_prefix = "loadtest";
}

ramp-new_ramp-IsFair_example :
    IsFair runner_config (ramp runner_config (tick 1 ∷ tick 2 ∷ tick 3 ∷ tick 4 ∷ []) new_ramp)
ramp-new_ramp-IsFair_example =
    ramp-new_ramp-IsFair runner_config (tick 1 ∷ tick 2 ∷ tick 3 ∷ tick 4 ∷ [])

-- The number that is printed after three clients were started.
printed : (ramp runner_config (tick 1 ∷ tick 2 ∷ tick 3 ∷ tick 4 ∷ []) new_ramp).spawned ≡ 4
unfolding ramp new_ramp
printed = refl

abbrev results : List ClientResult
results = after_redirect.result ∷ (new_client "peer-2" none).result ∷ []

build_report-IsTrue_example :
    (rep : Report) × (build_report results 1 ≡ some rep) × IsTrue results rep
build_report-IsTrue_example = build_report-IsTrue results 1
