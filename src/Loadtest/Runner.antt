-- ===== src/Loadtest/Runner.antt =====
-- internal/loadtest/runner.go: the ramp-up, which starts the clients one by one and spreads them over rooms and
-- addresses. A room or a peer is given by what `Sprintf` puts into its name. A number of rooms that is not positive
-- counts as 1, and so does 0 here.
use mephi_sfu_server_project.Common.{
  ℕ, zero, suc, ◌%◌, String, Bool, true, false, List, [], ◌∷◌, ◌++◌, Option, none, some, length,
  if◌then◌else◌, ltb,
}

pub record RunnerConfig : Type 0 where
  pub addr : String
  pub addrs : List String
  pub total_clients : ℕ
  pub rooms : ℕ
  pub room_prefix : String

-- `ClientConfig`, with the number of its room, and its own number and time, which make its name.
pub record ClientConfig : Type 0 where
  pub target_addr : String
  pub room_prefix : String
  pub room : ℕ
  pub number : ℕ
  pub time : ℕ

-- What the `select` of the ramp-up gets; a tick comes with the time.
pub data Event : Type 0 where
  context_done : Event
  tick : ℕ → Event

pub record Ramp : Type 0 where
  pub spawned : ℕ
  pub started : List ClientConfig
  pub is_done : Bool

-- `max(n, 1)`
abbrev pub at_least_one : ℕ → ℕ
at_least_one zero = 1
at_least_one (suc n) = suc n

unfoldable pub nth : ℕ → List String → Option String
nth n [] = none
nth zero (a ∷ rest) = some a
nth (suc n) (a ∷ rest) = nth n rest

-- The address for the client after `n` others; the index is within the list, and `none` is Go's panic.
unfoldable pub target : RunnerConfig → ℕ → Option String
unfolding nth
target cfg n =
    if ltb 0 (length cfg.addrs) then nth (n % length cfg.addrs) cfg.addrs else some cfg.addr

-- The client after `n` others.
unfoldable pub client_config : RunnerConfig → ℕ → ℕ → Option ClientConfig
unfolding target
client_config cfg n time = elim (target cfg n) [
  | none ↦ none
  | some addr ↦ some (record {
    target_addr = addr;
    room_prefix = cfg.room_prefix;
    room = n % at_least_one cfg.rooms;
    number = suc n;
    time = time;
  })
]

abbrev start : Option ClientConfig → List ClientConfig → List ClientConfig
start none started = started
start (some c) started = started ++ c ∷ []

-- The loop of `Run`; `is_done` tells whether it has come to the wait for the clients.
unfoldable pub ramp : RunnerConfig → List Event → Ramp → Ramp
unfolding client_config
ramp cfg [] r = r
ramp cfg (context_done ∷ rest) r = record r { is_done = true }
ramp cfg (tick time ∷ rest) r =
    let next = ramp cfg rest (record r {
      spawned = suc r.spawned;
      started = start (client_config cfg r.spawned time) r.started;
    }) in
    if ltb cfg.total_clients (suc r.spawned)
    then record r { spawned = suc r.spawned; is_done = true }
    else next

unfoldable pub new_ramp : Ramp
new_ramp = record { spawned = 0; started = []; is_done = false }
