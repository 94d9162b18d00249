-- ===== src/Signal/Node/Invariant.antt =====
-- What every interleaving of the steps of Node.antt keeps.
use mephi_sfu_server_project.Common.{
  ℕ, ◌+◌, ◌-◌, ◌≤◌, ◌<◌, String, Bool, true, false, ◌&&◌, List, [], ◌∷◌, Option, none, some, ◌≡◌,
  refl, arith, Bool-cases, Option-cases, inl, inr, if◌then◌else◌, ltb, leb,
}
use mephi_sfu_server_project.Map.{lookup, contains, total}
use mephi_sfu_server_project.Map.Laws.{contains-lookup}
use mephi_sfu_server_project.Map.Total.{total-insert_new, total-insert_old}
use mephi_sfu_server_project.Map.Every.{Every, insert-Every, Every-nil}
use mephi_sfu_server_project.Peer.{Pion}
use mephi_sfu_server_project.Cluster.{Redis}
use mephi_sfu_server_project.Server.{SfuServer, ServerConfig}
use mephi_sfu_server_project.Server.Invariant as ServerInvariant
use mephi_sfu_server_project.Server.Invariant.{new_sfu_server-Inv}
use mephi_sfu_server_project.Server.Registry.{serve-Inv}
use mephi_sfu_server_project.Signal.Message.{Json, JoinPayload}
use mephi_sfu_server_project.Signal.Session.{
  Session, new_session, forward_negotiation, write_round, ping_round,
}
use mephi_sfu_server_project.Signal.Session.Invariant.{
  Live, new_session-Live, forward_negotiation-Live, write_round-Live, ping_round-Live,
  pop_close-Live,
}
use mephi_sfu_server_project.Signal.Session.Keeping.{
  Fine, close-Fine, read_round-Fine, enter_missing-Fine,
}
use mephi_sfu_server_project.Signal.Node.{
  enters, enter_on, Connection, Metrics, Node, new_node, arrive, upgrade, put, touch, Work, arrives,
  upgrades, reads, writes, pings, forwards, closes, serves, read_on, close_on, at, work, work_all,
}

abbrev pub running_count : Connection → ℕ
running_count c = if c.running then 1 else 0

-- The gauge of active connections is the counter.
abbrev pub CountedConnections : Option Metrics → ℕ → Type 0
CountedConnections none k = Unit
CountedConnections (some m) k = m.connections_opened ≡ m.connections_closed + k

-- What a connection keeps, with or without its handler.
abbrev pub LiveConnection : String → Connection → Type 0
LiveConnection key c = Live c.session

pub record Inv {S : Type 0} (n : Node S) : Type 0 where
  pub server : ServerInvariant.Inv n.server
  pub live : Every LiveConnection n.connections
  pub counted : n.active_conns ≡ total running_count n.connections
  pub gauged : CountedConnections n.metrics n.active_conns
  pub highest : n.upgrading ≤ n.peak
  pub limited : 0 < n.max_conns → n.active_conns + n.upgrading ≤ n.max_conns + (n.peak - 1)

new_node-Inv :
    {S : Type 0} (config : ServerConfig) (store : S) (max_conns : ℕ)
    → Inv (new_node config store max_conns)
unfolding new_node total
new_node-Inv config store max_conns = record {
  server = new_sfu_server-Inv config store;
  live = Every-nil LiveConnection;
  counted = refl;
  gauged = ground arith;
  highest = omega arith;
  limited = λ h. omega arith;
}

arrive-Inv : {S : Type 0} (n : Node S) → Inv n → Inv (arrive n)
unfolding arrive
arrive-Inv n v = elim (Bool-cases (ltb 0 n.max_conns && leb n.max_conns n.active_conns)) [
  | inl e ↦
      simp (e, arrive)
        (record {
          server = v.server;
          live = v.live;
          counted = v.counted;
          gauged = v.gauged;
          highest = v.highest;
          limited = v.limited;
        })
  | inr e ↦
      simp (e, arrive)
        (record {
          server = v.server;
          live = v.live;
          counted = v.counted;
          gauged = v.gauged;
          highest = ground (arith, v.highest);
          limited = λ h. ground (arith, e, h, v.limited h, v.highest);
        })
]

upgrade-Inv : {S : Type 0} (key : String) (ok : Bool) (n : Node S) → Inv n → Inv (upgrade key ok n)
unfolding upgrade
upgrade-Inv key ok n v = elim (Bool-cases (ltb 0 n.upgrading)) [
  | inr e ↦ simp (e, upgrade) v
  | inl e ↦ elim (Bool-cases (contains key n.connections)) [
    | inl c ↦ simp (e, upgrade, c) v
    | inr c ↦ elim (Bool-cases ok) [
      | inl o ↦
          let fresh : Connection = record { session = new_session; running = true } in
          let absent : lookup key n.connections ≡ none =
            ground (arith, contains-lookup key n.connections) in
          simp (e, upgrade, c, o)
            (record {
              server = v.server;
              live = insert-Every LiveConnection key fresh n.connections new_session-Live v.live;
              counted =
                  ground (
                    arith,
                    v.counted,
                    total-insert_new running_count key fresh n.connections absent,
                  );
              gauged = ground (arith, v.gauged);
              highest = ground (arith, v.highest);
              limited = λ h. ground (arith, e, v.limited h);
            })
      | inr o ↦
          simp (e, upgrade, c, o)
            (record {
              server = v.server;
              live = v.live;
              counted = v.counted;
              gauged = v.gauged;
              highest = ground (arith, v.highest);
              limited = λ h. ground (arith, e, v.limited h);
            })
    ]
  ]
]

touch-Inv :
    {S : Type 0} (key : String) (sv : SfuServer S) (s : Session) (c : Connection) (n : Node S)
    → lookup key n.connections ≡ some c
    → Inv n
    → Fine sv s
    → Inv (touch key sv s c.running n)
unfolding touch
touch-Inv key sv s c n e v w =
    let c' : Connection = record { session = s; running = c.running } in
    record {
      server = w.server;
      live = insert-Every LiveConnection key c' n.connections w.session v.live;
      counted = ground (arith, v.counted, total-insert_old running_count key c' c n.connections e);
      gauged = v.gauged;
      highest = v.highest;
      limited = v.limited;
    }

put-Inv :
    {S : Type 0} (key : String) (sv : SfuServer S) (s : Session) (goes_on : Bool) (c : Connection)
    (n : Node S)
    → lookup key n.connections ≡ some c
    → c.running ≡ true
    → Inv n
    → Fine sv s
    → Inv (put key sv s goes_on n)
unfolding put
put-Inv key sv s true c n e run v w =
    let c' : Connection = record { session = s; running = true } in
    record {
      server = w.server;
      live = insert-Every LiveConnection key c' n.connections w.session v.live;
      counted =
          ground (arith, run, v.counted, total-insert_old running_count key c' c n.connections e);
      gauged = v.gauged;
      highest = v.highest;
      limited = v.limited;
    }
put-Inv key sv s false c n e run v w =
    let c' : Connection = record { session = s; running = false } in
    let size = total-insert_old running_count key c' c n.connections e in
    record {
      server = w.server;
      live = insert-Every LiveConnection key c' n.connections w.session v.live;
      counted = ground (arith, run, v.counted, size);
      gauged = ground (arith, run, v.gauged, v.counted, size);
      highest = v.highest;
      limited = λ h. ground (arith, v.limited h);
    }

module _ {S : Type 0} (redis : Redis S) where
  at-Inv :
      (key : String) (f : Connection → Node S → Node S) (n : Node S)
      → ((c : Connection) → lookup key n.connections ≡ some c → Inv (f c n))
      → Inv n
      → Inv (at redis key f n)
  unfolding at
  at-Inv key f n step v = elim (Option-cases (lookup key n.connections)) [
    | inl e ↦ rw (e, at) v
    | inr (c, e) ↦ rw (e, at) (step c e)
  ]

  read_on-Inv :
      (pion : Pion) (json : Json) (pick : Bool) (input : Option String) (key : String)
      (c : Connection) (n : Node S)
      → lookup key n.connections ≡ some c
      → Inv n
      → Inv (read_on redis pion json pick input key c n)
  unfolding read_on
  read_on-Inv pion json pick input key c n e v = elim (Bool-cases c.running) [
    | inl run ↦
        simp (run, read_on)
          (put-Inv key _ _ _ c n e run v (
            read_round-Fine redis pion json pick input n.server c.session
              (record { server = v.server; session = v.live key c e })))
    | inr run ↦ simp (run, read_on) v
  ]

  enter_on-Inv :
      (pion : Pion) (json : Json) (pick : Bool) (payload : JoinPayload) (key : String)
      (c : Connection) (n : Node S)
      → lookup key n.connections ≡ some c
      → Inv n
      → Inv (enter_on redis pion json pick payload key c n)
  unfolding enter_on
  enter_on-Inv pion json pick payload key c n e v = elim (Bool-cases c.running) [
    | inl run ↦
        simp (run, enter_on)
          (put-Inv key _ _ _ c n e run v (
            enter_missing-Fine redis pion json pick payload n.server c.session
              (record { server = v.server; session = v.live key c e })))
    | inr run ↦ simp (run, enter_on) v
  ]

  close_on-Inv :
      (key : String) (c : Connection) (n : Node S)
      → lookup key n.connections ≡ some c
      → Inv n
      → Inv (close_on redis key c n)
  unfolding close_on
  close_on-Inv key c n e v = elim (Bool-cases (ltb 0 c.session.closing)) [
    | inl b ↦
        simp (b, close_on)
          (touch-Inv key _ _ c n e v (
            close-Fine redis n.server _
              (record { server = v.server; session = pop_close-Live c.session (v.live key c e) })))
    | inr b ↦ simp (b, close_on) v
  ]

  -- A step that changes only the session of a connection.
  session-Inv :
      (key : String) (f : Session → Session) (n : Node S)
      → ((s : Session) → Live s → Live (f s))
      → Inv n
      → Inv (at redis key (λ c n'. touch key n'.server (f c.session) c.running n') n)
  session-Inv key f n keeps v =
      at-Inv key _ n
        (λ c e.
          touch-Inv key n.server (f c.session) c n e v
            (record { server = v.server; session = keeps c.session (v.live key c e) }))
        v

  work-Inv : (w : Work) (n : Node S) → Inv n → Inv (work redis w n)
  unfolding work
  work-Inv arrives n v = arrive-Inv n v
  work-Inv (upgrades key ok) n v = upgrade-Inv key ok n v
  work-Inv (reads pion json pick input key) n v =
      at-Inv key (read_on redis pion json pick input key) n
        (λ c e. read_on-Inv pion json pick input key c n e v) v
  work-Inv (enters pion json pick payload key) n v =
      at-Inv key (enter_on redis pion json pick payload key) n
        (λ c e. enter_on-Inv pion json pick payload key c n e v) v
  work-Inv (writes pick ok key) n v =
      session-Inv key (write_round pick ok) n (write_round-Live pick ok) v
  work-Inv (pings ok key) n v = session-Inv key (ping_round ok) n (ping_round-Live ok) v
  work-Inv (forwards json pick msg key) n v =
      session-Inv key (forward_negotiation json pick msg) n (forward_negotiation-Live json pick msg)
        v
  work-Inv (closes key) n v = at-Inv key (close_on redis key) n (λ c e. close_on-Inv key c n e v) v
  work-Inv (serves q) n v = record {
    server = serve-Inv redis q n.server v.server;
    live = v.live;
    counted = v.counted;
    gauged = v.gauged;
    highest = v.highest;
    limited = v.limited;
  }

  work_all-Inv : (ws : List Work) (n : Node S) → Inv n → Inv (work_all redis ws n)
  unfolding work_all
  work_all-Inv [] n v = v
  work_all-Inv (w ∷ rest) n v = work_all-Inv rest (work redis w n) (work-Inv w n v)

  -- Whatever clients send, and however the handlers, the loops of sessions, their goroutines, pion's callbacks and
  -- the other calls on the server interleave, from a new node on: the server stays well-formed; each session has a
  -- room exactly when it has a peer, its queue is within 64 messages, and its context is done exactly when it has been
  -- closed; the counter of connections, and the gauge, are the number of running handlers; and under a limit they
  -- exceed it by less than the most handlers that were ever at once between the check and the count.
  pub work_all-new_node-Inv :
      (config : ServerConfig) (store : S) (max_conns : ℕ) (ws : List Work)
      → Inv (work_all redis ws (new_node config store max_conns))
  work_all-new_node-Inv config store max_conns ws =
      work_all-Inv ws _ (new_node-Inv config store max_conns)
