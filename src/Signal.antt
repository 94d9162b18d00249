-- ===== src/Signal.antt =====
-- internal/signal/websocket.go: the conversion of an int64 to text. A byte is its code; the buffer has 20
-- bytes, and `none` stands for a write in front of it, which panics.
pub mod Decimal
pub mod Message
pub mod Session
pub mod Node
pub mod IceServers
use mephi_sfu_server_project.Common.{
  ℕ, zero, suc, ◌+◌, ◌/◌, ◌%◌, ◌^◌, List, [], ◌∷◌, Option, none, some, Bool, true, false,
  if◌then◌else◌, ◌==◌, ℤ, pos, negsuc,
}

-- `-n` in an int64: the least number is its own negation, and stays below zero.
unfoldable pub neg_int64 : ℤ → ℤ
neg_int64 (pos zero) = pos zero
neg_int64 (pos (suc n)) = negsuc n
neg_int64 (negsuc n) = if suc n == 2 ^ 63 then negsuc n else pos (suc n)

-- `for n > 0`, with the place before which the next byte goes and what stands behind it.
unfoldable pub fill : ℕ → ℕ → List ℕ → Option (ℕ × List ℕ)
fill zero n out = if n == 0 then some (zero, out) else none
fill (suc place) n out =
    let more = fill place (n / 10) ((48 + n % 10) ∷ out) in
    if n == 0 then some (suc place, out) else more

unfoldable pub fill_int : ℤ → Option (ℕ × List ℕ)
unfolding fill
fill_int (pos n) = fill 20 n []
fill_int (negsuc n) = some (20, [])

-- The sign goes in front.
unfoldable pub put_sign : Option (ℕ × List ℕ) → Option (List ℕ)
put_sign none = none
put_sign (some (zero, out)) = none
put_sign (some (suc place, out)) = some (45 ∷ out)

abbrev pub without_place : Option (ℕ × List ℕ) → Option (List ℕ)
without_place none = none
without_place (some (place, out)) = some out

unfoldable pub itoa : ℤ → Option (List ℕ)
unfolding fill_int put_sign neg_int64
itoa (pos zero) = some (48 ∷ [])
itoa (pos (suc n)) = without_place (fill_int (pos (suc n)))
itoa (negsuc n) = put_sign (fill_int (neg_int64 (negsuc n)))
