-- ===== src/Loadtest/Command.antt =====
-- cmd/loadtest/main.go: the nodes that the load goes to. `split` is `strings.Split` at commas and `trim` is
-- `strings.TrimSpace`. The flags are arguments; printing and the server of metrics are left out.
use Prim.Native.String.{◌++◌ as str_append}
use mephi_sfu_server_project.Common.{
  ℕ, zero, suc, String, str_eq, true, List, [], ◌∷◌, Option, none, some, if◌then◌else◌, map, length,
  ltb, ◌%◌, ◌<◌, ◌≡◌, refl, arith,
}
use mathlib.Core.List.{Memᴰ}
use native.Mathlib.Nat.{mod-lt}
use mephi_sfu_server_project.Cluster.{NodeStats}
use mephi_sfu_server_project.Loadtest.Runner.{RunnerConfig, nth, target}

pub record Flags : Type 0 where
  pub addr : String
  pub addrs : String
  pub clients : ℕ
  pub rooms : ℕ
  pub room_prefix : String

unfoldable pub ws_url : NodeStats → String
ws_url node = str_append "ws://" (str_append node.addr "/ws")

-- What Redis gave: nothing, where it was not asked or `GetAllNodes` failed.
unfoldable pub discovered : Option (List NodeStats) → List String
unfolding ws_url
discovered none = []
discovered (some nodes) = map ws_url nodes

unfoldable pub trimmed_parts : (String → String) → List String → List String
trimmed_parts trim [] = []
trimmed_parts trim (part ∷ rest) =
    let others = trimmed_parts trim rest in
    if str_eq (trim part) "" then others else trim part ∷ others

abbrev or_else : List String → List String → List String
or_else [] ys = ys
or_else (x ∷ xs) ys = x ∷ xs

-- The addresses of `-addrs`.
abbrev listed : (String → List String) → (String → String) → Flags → List String
listed split trim flags =
    if str_eq flags.addrs "" then [] else trimmed_parts trim (split flags.addrs)

-- `targetAddrs`: the nodes of Redis, else those of `-addrs`, else `-addr`.
unfoldable pub target_addrs :
    (String → List String) → (String → String) → Flags → Option (List NodeStats) → List String
unfolding discovered trimmed_parts
target_addrs split trim flags nodes =
    or_else (or_else (discovered nodes) (listed split trim flags)) (flags.addr ∷ [])

abbrev first : List String → Option String
first [] = none
first (a ∷ rest) = some a

-- `cfg`; `none` is the panic of `targetAddrs[0]` on no address.
unfoldable pub runner_config :
    (String → List String)
    → (String → String)
    → Flags
    → Option (List NodeStats)
    → Option RunnerConfig
unfolding target_addrs
runner_config split trim flags nodes = elim (first (target_addrs split trim flags nodes)) [
  | none ↦ none
  | some addr ↦ some (record {
    addr = addr;
    addrs = target_addrs split trim flags nodes;
    total_clients = flags.clients;
    rooms = flags.rooms;
    room_prefix = flags.room_prefix;
  })
]

or_else-first :
    (xs : List String) (a : String) → (b : String) × (first (or_else xs (a ∷ [])) ≡ some b)
or_else-first [] a = (a, refl)
or_else-first (x ∷ xs) a = (x, refl)

nth-Mem :
    (n : ℕ) (xs : List String) → n < length xs → (a : String) × (nth n xs ≡ some a) × Memᴰ a xs
unfolding nth
nth-Mem n [] h = absurd (omega arith)
nth-Mem zero (a ∷ xs) h = (a, refl, Memᴰ.head refl)
nth-Mem (suc n) (a ∷ xs) h = let v = nth-Mem n xs (omega arith) in (v.0, v.1, Memᴰ.tail v.2)

first-length : (xs : List String) (b : String) → first xs ≡ some b → 0 < length xs
first-length [] b e = absurd (ground (arith, e))
first-length (a ∷ xs) b e = omega arith

-- A configuration with addresses: every client has one of them.
target-Mem :
    (cfg : RunnerConfig) (n : ℕ) (b : String)
    → first cfg.addrs ≡ some b
    → (a : String) × (target cfg n ≡ some a) × Memᴰ a cfg.addrs
unfolding target
target-Mem cfg n b e =
    let on : ltb 0 (length cfg.addrs) ≡ true = ground (arith, first-length cfg.addrs b e) in
    rw (on, target)
      (nth-Mem (n % length cfg.addrs) cfg.addrs (mod-lt n (first-length cfg.addrs b e)))

-- Whatever the flags are and Redis gives, there is a configuration, without a panic, and in it every client has one
-- of the target addresses.
pub runner_config-target :
    (split : String → List String) (trim : String → String) (flags : Flags)
    (nodes : Option (List NodeStats)) (n : ℕ)
    → (cfg : RunnerConfig) × (runner_config split trim flags nodes ≡ some cfg)
      × ((a : String) × (target cfg n ≡ some a) × Memᴰ a (target_addrs split trim flags nodes))
unfolding runner_config target_addrs
runner_config-target split trim flags nodes n =
    let v = or_else-first (or_else (discovered nodes) (listed split trim flags)) flags.addr in
    let cfg : RunnerConfig = record {
      addr = v.0;
      addrs = target_addrs split trim flags nodes;
      total_clients = flags.clients;
      rooms = flags.rooms;
      room_prefix = flags.room_prefix;
    } in
    (cfg, simp (v.1, runner_config) refl, target-Mem cfg n v.0 v.1)
