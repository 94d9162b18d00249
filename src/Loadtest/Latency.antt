-- ===== src/Loadtest/Latency.antt =====
-- The index of a percentile lies within the times, however the product is rounded.
use native.Mathlib.Nat.{suc-mul, mul_comm, mod-add-div, div-lt_iff_lt-mul}
use mephi_sfu_server_project.Common.{
  ℕ, zero, suc, ◌+◌, ◌*◌, ◌/◌, ◌%◌, ◌^◌, ◌≤◌, ◌<◌, ◌≡◌, refl, arith,
}
use mephi_sfu_server_project.Loadtest.Report.{excess, round_half_even, float_index}

excess_lem : (f p k : ℕ) → excess f p ≡ suc k → 2 ^ k * 2 ^ 53 ≤ p
unfolding excess
excess_lem zero p k e = ground (arith, e)
excess_lem (suc f) p zero e = ground (arith, e)
excess_lem (suc f) p (suc k) e =
    let deeper : excess f (p / 2) ≡ suc k = ground (arith, e) in
    let half = excess_lem f (p / 2) k deeper in ground (arith, half)

rounded : (k p : ℕ) → round_half_even k p * 2 ^ suc k ≤ p + 2 ^ k
unfolding round_half_even
rounded k p =
    let q = p / 2 ^ suc k in
    let whole : p % 2 ^ suc k + 2 ^ suc k * q ≡ p = mod-add-div p (2 ^ suc k) in
    ground (arith, whole, suc-mul q (2 ^ suc k), mul_comm (2 ^ suc k) q)

pub float_index-within : (m n : ℕ) → 0 < n → n * m + n ≤ n * 2 ^ 53 → float_index m n < n
unfolding float_index
float_index-within m n h b = by_excess (excess 64 (n * m)) refl
  where
    by_excess : (e : ℕ) → excess 64 (n * m) ≡ e → float_index m n < n
    by_excess zero e =
        rw (e, float_index) ((div-lt_iff_lt-mul (omega arith)).1 (omega (arith, b, h)))
    by_excess (suc k) e =
        rw (e, float_index)
          ((div-lt_iff_lt-mul (omega arith)).1
            (omega (arith, b, h, rounded k (n * m), excess_lem 64 (n * m) k e)))
