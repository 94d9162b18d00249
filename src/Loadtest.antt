-- ===== src/Loadtest.antt =====
-- internal/loadtest: the load generator. This file: client.go, one headless client and its attempts to connect. What
-- the network and pion do in an attempt is its `Attempt`; `sent` logs the messages for the server, and the gauge of
-- connected clients is counted up and down apart. The sample tracks and the readers that drain tracks have no state.
pub mod Accounting
pub mod Redirects
pub mod Termination
pub mod Runner
pub mod Command
pub mod Balance
pub mod Report
pub mod Latency
pub mod Sorting
pub mod Totals
use mephi_sfu_server_project.Common.{
  ℕ, zero, suc, ◌+◌, String, Bool, true, false, List, [], ◌∷◌, ◌++◌, Option, none, some,
  if◌then◌else◌,
}
use mephi_sfu_server_project.Map.{Map, lookup, insert}

-- What `select` gets, in the order in which the client gets it. An offer has the answer that becomes of it, where its
-- payload is read and pion makes one. `settled` is the end of `connectedCh`.
pub data Event : Type 0 where
  cancelled timed_out ws_closed settled server_error candidate other : Event
  offer redirect : Option String → Event

-- One attempt: what succeeds of its steps, what comes while it connects, whether the connection is then up, and what
-- comes while it is held, where `timed_out` is the end of the duration.
pub record Attempt : Type 0 where
  pub dials : Bool
  pub registers_codecs : Bool
  pub makes_connection : Bool
  pub makes_video : Bool
  pub makes_audio : Bool
  pub adds_video : Bool
  pub sends_join : Bool
  pub signaling : List Event
  pub is_connected : Bool
  pub connection_time : ℕ
  pub holding : List Event

pub data Sent : Type 0 where
  join leave : Sent
  answer : String → Sent

pub data ClientError : Type 0 where
  ws_dial register_codecs new_pc video_track audio_track add_video send_join : ClientError
  context_done connection_timeout closed_during_signaling refused connection_failed
        too_many_redirects :
      ClientError

pub record ClientResult : Type 0 where
  pub peer_id : String
  pub connected : Bool
  pub connection_time : ℕ
  pub error : Option ClientError
  pub stage : String

-- `LoadTestMetrics`
pub record Metrics : Type 0 where
  pub clients_spawned : ℕ
  pub clients_up : ℕ
  pub clients_down : ℕ
  pub clients_failed : ℕ
  pub connection_times : List ℕ
  pub errors_total : Map ℕ

pub record Client : Type 0 where
  pub result : ClientResult
  pub metrics : Option Metrics
  pub sent : List Sent

-- How an attempt ends; `waiting` is the model's own, for a client to which nothing more comes.
pub data Verdict : Type 0 where
  finished waiting : Verdict
  redirected : String → Verdict
  failed : ClientError → Verdict

-- `if c.m != nil`
abbrev pub observe : (Metrics → Metrics) → Option Metrics → Option Metrics
observe f none = none
observe f (some m) = some (f m)

abbrev pub client_spawned : Metrics → Metrics
client_spawned m = record m { clients_spawned = suc m.clients_spawned }

abbrev pub client_connected : ℕ → Metrics → Metrics
client_connected t m = record m {
  clients_up = suc m.clients_up;
  connection_times = m.connection_times ++ t ∷ [];
}

abbrev pub client_left : Metrics → Metrics
client_left m = record m { clients_down = suc m.clients_down }

-- `WithLabelValues(stage).Inc()`, and `m[stage]++`
unfoldable pub count_stage : String → Map ℕ → Map ℕ
count_stage stage m = insert stage (suc (elim (lookup stage m) [ none ↦ 0 | some n ↦ n ])) m

unfoldable pub client_failed : String → Metrics → Metrics
unfolding count_stage
client_failed stage m = record m {
  clients_failed = suc m.clients_failed;
  errors_total = count_stage stage m.errors_total;
}

abbrev pub at_stage : String → Client → Client
at_stage stage c = record c { result = record (c.result) { stage = stage } }

abbrev pub send : Sent → Client → Client
send msg c = record c { sent = c.sent ++ msg ∷ [] }

-- `handleOffer`
abbrev pub handle_offer : Option String → Client → Client
handle_offer none c = c
handle_offer (some sdp) c = send (answer sdp) c

-- The loop until the client is connected; `none` is its end by `connectedCh`.
unfoldable pub signal : List Event → Client → Client × Option Verdict
signal [] c = (c, some waiting)
signal (cancelled ∷ rest) c = (c, some (failed context_done))
signal (timed_out ∷ rest) c = (at_stage "timeout" c, some (failed connection_timeout))
signal (ws_closed ∷ rest) c = (c, some (failed closed_during_signaling))
signal (settled ∷ rest) c = (c, none)
signal (server_error ∷ rest) c = (c, some (failed refused))
signal (candidate ∷ rest) c = signal rest (at_stage "ice" c)
signal (other ∷ rest) c = signal rest c
signal (offer a ∷ rest) c = signal rest (handle_offer a (at_stage "answer" c))
signal (redirect none ∷ rest) c = signal rest c
signal (redirect (some addr) ∷ rest) c = (c, some (redirected addr))

abbrev pub disconnect : Client → Client
disconnect c = record c { metrics = observe client_left c.metrics }

-- The loop that holds the connection.
unfoldable pub hold : List Event → Client → Client × Verdict
hold [] c = (c, waiting)
hold (cancelled ∷ rest) c = (disconnect (send leave c), finished)
hold (timed_out ∷ rest) c = (disconnect (send leave c), finished)
hold (ws_closed ∷ rest) c = (disconnect c, finished)
hold (settled ∷ rest) c = hold rest c
hold (server_error ∷ rest) c = hold rest c
hold (candidate ∷ rest) c = hold rest c
hold (other ∷ rest) c = hold rest c
hold (offer a ∷ rest) c = hold rest (handle_offer a c)
hold (redirect a ∷ rest) c = hold rest c

-- What follows the loop until the client is connected.
unfoldable pub connect : Attempt → Client → Client × Verdict
unfolding hold
connect a c =
    if a.is_connected
    then hold a.holding (record c {
      result = record (c.result) {
        connected = true;
        connection_time = a.connection_time;
        stage = "holding";
      };
      metrics = observe (client_connected a.connection_time) c.metrics;
    })
    else (at_stage "ice" c, failed connection_failed)

unfoldable pub after_signal : Attempt → Client → Option Verdict → Client × Verdict
unfolding connect
after_signal a c none = connect a c
after_signal a c (some verdict) = (c, verdict)

unfoldable pub wait_connected : Attempt → Client → Client × Verdict
unfolding signal after_signal
wait_connected a c =
    let (c', ended) = signal a.signaling (at_stage "signaling" c) in after_signal a c' ended

-- A step that ends the attempt where it fails, and what follows it.
unfoldable pub attempt_step :
    Bool → String → ClientError → Client → Client × Verdict → Client × Verdict
attempt_step ok stage e c next = if ok then next else (at_stage stage c, failed e)

-- `runAttempt`
unfoldable pub run_attempt : Attempt → Client → Client × Verdict
unfolding attempt_step wait_connected
run_attempt a c = attempt_step a.dials "dial" ws_dial c (
    attempt_step a.registers_codecs "peer_connection" register_codecs c (
      attempt_step a.makes_connection "peer_connection" new_pc c (
        attempt_step a.makes_video "tracks" video_track c (
          attempt_step a.makes_audio "tracks" audio_track c (
            attempt_step a.adds_video "tracks" add_video c (
              attempt_step a.sends_join "join" send_join c
                (wait_connected a (send join (at_stage "join" c)))))))))

abbrev pub max_attempts : ℕ
max_attempts = 5

-- After an attempt: `again` tries the address of a redirect.
unfoldable pub after_attempt :
    (String → Client → Client × Verdict) → Client → Verdict → Client × Verdict
after_attempt again c finished = (c, finished)
after_attempt again c waiting = (c, waiting)
after_attempt again c (redirected next) = again next c
after_attempt again c (failed e) = (c, failed e)

-- The attempts from the number `n` on, `left` of them at most; `world` gives what happens at an address.
unfoldable pub attempts : (ℕ → String → Attempt) → ℕ → ℕ → String → Client → Client × Verdict
unfolding run_attempt after_attempt
attempts world n zero addr c = (c, failed too_many_redirects)
attempts world n (suc left) addr c =
    let (c', verdict) = run_attempt (world n addr) c in
    after_attempt (attempts world (suc n) left) c' verdict

unfoldable pub new_client : String → Option Metrics → Client
new_client peer_id metrics = record {
  result = record {
    peer_id = peer_id;
    connected = false;
    connection_time = 0;
    error = none;
    stage = "";
  };
  metrics = metrics;
  sent = [];
}

-- What `Run` does with the error.
unfoldable pub conclude : Client → Verdict → Client
unfolding client_failed
conclude c finished = c
conclude c waiting = c
conclude c (redirected addr) = c
conclude c (failed e) = record c {
  result = record (c.result) { error = some e };
  metrics = observe (client_failed c.result.stage) c.metrics;
}

-- `Run`, with how it ended.
unfoldable pub run : (ℕ → String → Attempt) → String → Client → Client × Verdict
unfolding attempts conclude
run world addr c =
    let (c', verdict) =
      attempts world 0 max_attempts addr
        (record c { metrics = observe client_spawned c.metrics }) in
    (conclude c' verdict, verdict)
