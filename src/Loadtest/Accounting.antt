-- ===== src/Loadtest/Accounting.antt =====
-- How the runs of a headless client end, and what they leave in the metrics.
use mephi_sfu_server_project.Common.{ℕ, true, false, Option, none, some, ◌≡◌}
use mephi_sfu_server_project.Loadtest.{
  at_stage, ClientError, Metrics, Client, Verdict, finished, waiting, redirected, failed, observe,
  client_spawned, client_connected, client_left, client_failed, at_stage,
}

-- What a client that was connected leaves in the metrics.
abbrev pub held : ℕ → Metrics → Metrics
held t m = client_left (client_connected t m)

-- The client is as connected, and its metrics as they were.
abbrev Unmoved : Client → Client → Type 0
Unmoved c c' =
    (c'.result.connected ≡ c.result.connected)
    × (c'.metrics ≡ c.metrics)
    × (c'.result.error ≡ c.result.error)

-- What the attempts do to a client that is not connected, by how they end.
abbrev Effect : Verdict → Client → Client → Type 0
Effect finished c c' =
    (c'.result.connected ≡ true)
    × (c'.metrics ≡ observe (held c'.result.connection_time) c.metrics)
    × (c'.result.error ≡ c.result.error)
Effect waiting c c' = Unit
Effect (redirected addr) c c' = Unmoved c c'
Effect (failed e) c c' = Unmoved c c'

-- The loop until the client is connected: it moves nothing, and does not finish the run.
abbrev Signalled : Option Verdict → Client → Client → Type 0
Signalled none c c' = Unmoved c c'
Signalled (some verdict) c c' = Effect verdict c c'

-- The loop that holds the connection: it ends in one way only, and takes the client off the gauge.
abbrev Released : Verdict → Client → Client → Type 0
Released finished c c' = (c'.result ≡ c.result) × (c'.metrics ≡ observe client_left c.metrics)
Released waiting c c' = Unit
Released (redirected addr) c c' = ⊥
Released (failed e) c c' = ⊥

-- The verdict on a run that has come to its end.
abbrev pub IsOver : Verdict → Type 0
IsOver finished = Unit
IsOver (failed e) = Unit
IsOver waiting = ⊥
IsOver (redirected addr) = ⊥

-- What a run that has ended leaves of a new client with the metrics `m`.
abbrev pub Accounted : Option Metrics → Client → Option ClientError → Type 0
Accounted m c none =
    (c.result.connected ≡ true)
    × (c.metrics ≡ observe (λ x. held c.result.connection_time (client_spawned x)) m)
Accounted m c (some e) =
    (c.result.connected ≡ false)
    × (c.metrics ≡ observe (λ x. client_failed c.result.stage (client_spawned x)) m)

abbrev Concluded : Option Metrics → Verdict → Client → Type 0
Concluded m finished c = Accounted m c c.result.error
Concluded m waiting c = Unit
Concluded m (redirected addr) c = Unit
Concluded m (failed e) c = Accounted m c c.result.error
