-- ===== src/Config/Validity.antt =====
-- What a configuration that `Load` returns satisfies.
use mephi_sfu_server_project.Common.{
  ℕ, zero, suc, ◌≤◌, ◌<◌, String, str_eq, eq_iff, true, false, ◌&&◌, Option, none, some, ℤ, pos,
  negsuc, leb_int, eq_int, ◌≡◌, ◌≢◌, ◌↔◌, refl, arith, Option-cases, inl, inr, subst,
}
use mephi_sfu_server_project.Config.{Config, validate, is_log_level, default_config}
use mephi_sfu_server_project.Config.Env.{
  Environment, File, load, check_config, apply_env, content, not_there, not_readable,
}

-- A number from 1 to a bound, or without one.
abbrev pub IsWithin : ℕ → ℤ → Type 0
IsWithin bound z = (n : ℕ) × (z ≡ pos n) × (0 < n) × (n ≤ bound)

abbrev pub IsPositive : ℤ → Type 0
IsPositive z = (n : ℕ) × (z ≡ pos (suc n))

pub record IsValid (cfg : Config) : Type 0 where
  pub port : IsWithin 65535 cfg.server.port
  pub interval : IsPositive cfg.sfu.pli_interval
  pub buffer : IsPositive cfg.sfu.sender_buf_size
  pub redis : cfg.cluster.enabled ≡ true → cfg.cluster.redis_addr ≢ ""
  pub metrics : cfg.metrics.enabled ≡ true → cfg.metrics.port ≢ cfg.server.port
  pub level : is_log_level cfg.log.level ≡ true

positive : (z : ℤ) → leb_int z (pos 0) ≡ false → IsPositive z
positive (pos (suc n)) e = (n, refl)
positive (pos zero) e = absurd (ground (arith, e))
positive (negsuc n) e = absurd (ground (arith, e))

positive_above : (z : ℤ) → IsPositive z → leb_int z (pos 0) ≡ false
positive_above z (n, e) = rw e (ground arith)

within : (z : ℤ) → leb_int z (pos 0) ≡ false → leb_int z (pos 65535) ≡ true → IsWithin 65535 z
within (pos n) e f = (n, refl, ground (arith, e), ground (arith, f))
within (negsuc n) e f = absurd (ground (arith, e))

within_tests :
    (z : ℤ) → IsWithin 65535 z → (leb_int z (pos 0) ≡ false) × (leb_int z (pos 65535) ≡ true)
within_tests z (n, e, low, high) = rw e (ground (arith, low), ground (arith, high))

eq_int_iff : (a b : ℤ) → (eq_int a b ≡ true) ↔ (a ≡ b)
eq_int_iff (pos a) (pos b) = ground arith
eq_int_iff (pos a) (negsuc b) = ground arith
eq_int_iff (negsuc a) (pos b) = ground arith
eq_int_iff (negsuc a) (negsuc b) = ground arith

-- The tests of `validate`, all at once.
Passes : Config → Type 0
Passes cfg =
    (leb_int cfg.server.port (pos 0) ≡ false)
    × (leb_int cfg.server.port (pos 65535) ≡ true)
    × (leb_int cfg.sfu.pli_interval (pos 0) ≡ false)
    × (leb_int cfg.sfu.sender_buf_size (pos 0) ≡ false)
    × ((cfg.cluster.enabled && str_eq cfg.cluster.redis_addr "") ≡ false)
    × ((cfg.metrics.enabled && eq_int cfg.metrics.port cfg.server.port) ≡ false)
    × (is_log_level cfg.log.level ≡ true)

validate-Passes : (cfg : Config) → (validate cfg ≡ none) ↔ Passes cfg
unfolding validate Passes
validate-Passes cfg = ground arith

-- `validate` finds no error exactly in a configuration whose server port is from 1 to 65535, whose
-- interval and buffer are positive, with a Redis address in a cluster, with a metrics port of its own where metrics
-- are on, and with a known log level.
pub validate-IsValid : (cfg : Config) → (validate cfg ≡ none) ↔ IsValid cfg
unfolding Passes
validate-IsValid cfg = (
  λ e.
      let h = (validate-Passes cfg).0 e in
      record {
        port = within cfg.server.port h.0 h.1;
        interval = positive cfg.sfu.pli_interval h.2;
        buffer = positive cfg.sfu.sender_buf_size h.3;
        redis = λ on empty. ground (arith, on, (eq_iff cfg.cluster.redis_addr "").1 empty, h);
        metrics =
            λ on same. ground (arith, on, (eq_int_iff cfg.metrics.port cfg.server.port).1 same, h);
        level = h.6;
      },
  λ v. (validate-Passes cfg).1 (
    (within_tests cfg.server.port v.port).0,
    (within_tests cfg.server.port v.port).1,
    positive_above cfg.sfu.pli_interval v.interval,
    positive_above cfg.sfu.sender_buf_size v.buffer,
    ground (arith, v.redis, eq_iff cfg.cluster.redis_addr ""),
    ground (arith, v.metrics, eq_int_iff cfg.metrics.port cfg.server.port),
    v.level,
  ),
)

check_config-IsValid :
    (env : Environment) (cfg out : Config) → check_config env cfg ≡ (some out, none) → IsValid out
unfolding check_config
check_config-IsValid env cfg out e = elim (Option-cases (validate cfg)) [
  | inl ok ↦
      let same : cfg ≡ out = ground (arith, e, ok) in
      subst IsValid same ((validate-IsValid cfg).0 ok)
  | inr (err, bad) ↦ absurd (ground (arith, e, bad))
]

-- Whatever the file and the environment hold, a configuration that `Load` returns is valid.
pub load-IsValid :
    (env : Environment) (parse : String → Config → Option Config) (file : File) (out : Config)
    → load env parse file ≡ (some out, none)
    → IsValid out
unfolding load
load-IsValid env parse not_there out e = check_config-IsValid env _ out e
load-IsValid env parse not_readable out e = absurd (ground (arith, e))
load-IsValid env parse (content data_) out e = elim (Option-cases (parse data_ default_config)) [
  | inl bad ↦ absurd (ground (arith, bad, e))
  | inr (cfg, ok) ↦ check_config-IsValid env (apply_env env cfg) out (rw (ok, load) at e)
]
