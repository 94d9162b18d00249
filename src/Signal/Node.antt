-- ===== src/Signal/Node.antt =====
-- internal/signal/websocket.go: the handlers of `/ws` on one node, with their sessions. A handler checks the limit,
-- upgrades the connection, counts it, and runs a session under a key of its own; its steps and those of the other
-- handlers interleave. `upgrading` counts the handlers between the check and the count, and `peak` is the most there
-- were at once. A limit that is not positive means no limit, and so does 0 here.
pub mod Invariant
use mephi_sfu_server_project.Common.{
  ℕ, suc, ◌+◌, ◌-◌, String, Bool, true, false, ◌&&◌, List, [], ◌∷◌, Option, none, some,
  if◌then◌else◌, ltb, leb,
}
use mephi_sfu_server_project.Map.{Map, lookup, insert, contains}
use mephi_sfu_server_project.Peer.{Pion, NegotiationMessage}
use mephi_sfu_server_project.Cluster.{Redis}
use mephi_sfu_server_project.Server.{SfuServer, ServerConfig, new_sfu_server}
use mephi_sfu_server_project.Server.Registry.{Request, serve}
use mephi_sfu_server_project.Signal.Message.{Json, JoinPayload}
use mephi_sfu_server_project.Signal.Session.{
  Session, new_session, forward_negotiation, write_round, ping_round,
}
use mephi_sfu_server_project.Signal.Session.Handlers.{close, read_round, enter_missing, settle}

-- A connection: its session, and whether its handler still runs.
pub record Connection : Type 0 where
  pub session : Session
  pub running : Bool

-- The counter and the gauge of internal/metrics/metrics.go.
pub record Metrics : Type 0 where
  pub connections_opened : ℕ
  pub connections_closed : ℕ

pub record Node (S : Type 0) : Type 0 where
  pub server : SfuServer S
  pub connections : Map Connection
  pub max_conns : ℕ
  pub active_conns : ℕ
  pub metrics : Option Metrics
  pub upgrading : ℕ
  pub peak : ℕ
  pub rejected : ℕ

unfoldable pub new_node : {S : Type 0} → ServerConfig → S → ℕ → Node S
new_node config store max_conns = record {
  server = new_sfu_server config store;
  connections = [];
  max_conns = max_conns;
  active_conns = 0;
  metrics =
      if config.has_metrics
      then some (record { connections_opened = 0; connections_closed = 0 })
      else none;
  upgrading = 0;
  peak = 0;
  rejected = 0;
}

abbrev pub connection_opened : Option Metrics → Option Metrics
connection_opened none = none
connection_opened (some m) = some (record m { connections_opened = m.connections_opened + 1 })

abbrev pub connection_closed : Option Metrics → Option Metrics
connection_closed none = none
connection_closed (some m) = some (record m { connections_closed = m.connections_closed + 1 })

-- The check of the limit.
unfoldable pub arrive : {S : Type 0} → Node S → Node S
arrive n =
    if ltb 0 n.max_conns && leb n.max_conns n.active_conns
    then record n { rejected = suc n.rejected }
    else record n {
      upgrading = suc n.upgrading;
      peak = if ltb n.peak (suc n.upgrading) then suc n.upgrading else n.peak;
    }

-- The upgrade, which fails where `ok` is false, and the counting of the connection.
unfoldable pub upgrade : {S : Type 0} → String → Bool → Node S → Node S
upgrade key ok n =
    if ltb 0 n.upgrading
    then if contains key n.connections
      then n
      else if ok
      then record n {
        upgrading = n.upgrading - 1;
        active_conns = n.active_conns + 1;
        metrics = connection_opened n.metrics;
        connections = insert key (record { session = new_session; running = true }) n.connections;
      }
      else record n { upgrading = n.upgrading - 1 }
    else n

-- What a step of a session left, and what the deferred function does where its handler ends.
unfoldable pub put : {S : Type 0} → String → SfuServer S → Session → Bool → Node S → Node S
put key sv s goes_on n =
    if goes_on
    then record n {
      server = sv;
      connections = insert key (record { session = s; running = true }) n.connections;
    }
    else record n {
      server = sv;
      connections = insert key (record { session = s; running = false }) n.connections;
      active_conns = n.active_conns - 1;
      metrics = connection_closed n.metrics;
    }

-- A step on the session of a connection that leaves the handler as it is.
unfoldable pub touch : {S : Type 0} → String → SfuServer S → Session → Bool → Node S → Node S
touch key sv s running n = record n {
  server = sv;
  connections = insert key (record { session = s; running = running }) n.connections;
}

-- The steps of a node: those of handlers, of the loops and goroutines of sessions, of pion's callbacks, and of the
-- rest of the program on the server.
pub data Work : Type 0 where
  arrives : Work
  upgrades : String → Bool → Work
  reads : Pion → Json → Bool → Option String → String → Work
  enters : Pion → Json → Bool → JoinPayload → String → Work
  writes : Bool → Bool → String → Work
  pings : Bool → String → Work
  forwards : Json → Bool → NegotiationMessage → String → Work
  closes : String → Work
  serves : Request → Work

module _ {S : Type 0} (redis : Redis S) where
  -- A round of the read loop of a connection whose handler runs.
  unfoldable pub read_on :
      Pion → Json → Bool → Option String → String → Connection → Node S → Node S
  unfolding put read_round
  read_on pion json pick input key c n =
      if c.running
      then (let r = read_round redis pion json pick input n.server c.session in
          put key r.0 r.1 r.2 n)
      else n

  -- The rest of a `join` that found no room when it looked.
  unfoldable pub enter_on : Pion → Json → Bool → JoinPayload → String → Connection → Node S → Node S
  unfolding put enter_missing
  enter_on pion json pick payload key c n =
      if c.running
      then (let r = settle redis (enter_missing redis pion json pick payload n.server c.session) in
          put key r.0 r.1 r.2 n)
      else n

  -- A goroutine `go s.close()`.
  unfoldable pub close_on : String → Connection → Node S → Node S
  unfolding touch close
  close_on key c n =
      if ltb 0 c.session.closing
      then (let r = close redis n.server (record (c.session) { closing = c.session.closing - 1 }) in
          touch key r.0 r.1 c.running n)
      else n

  -- A step of the connection under a key.
  unfoldable pub at : String → (Connection → Node S → Node S) → Node S → Node S
  at key f n = elim (lookup key n.connections) [ none ↦ n | some c ↦ f c n ]

  unfoldable pub work : Work → Node S → Node S
  unfolding arrive upgrade read_on enter_on close_on at touch
  work arrives n = arrive n
  work (upgrades key ok) n = upgrade key ok n
  work (reads pion json pick input key) n = at key (read_on pion json pick input key) n
  work (enters pion json pick payload key) n = at key (enter_on pion json pick payload key) n
  work (writes pick ok key) n =
      at key (λ c n'. touch key n'.server (write_round pick ok c.session) c.running n') n
  work (pings ok key) n =
      at key (λ c n'. touch key n'.server (ping_round ok c.session) c.running n') n
  work (forwards json pick msg key) n =
      at key
        (λ c n'. touch key n'.server (forward_negotiation json pick msg c.session) c.running n') n
  work (closes key) n = at key (close_on key) n
  work (serves q) n = record n { server = serve redis q n.server }

  unfoldable pub work_all : List Work → Node S → Node S
  unfolding work
  work_all [] n = n
  work_all (w ∷ rest) n = work_all rest (work w n)
