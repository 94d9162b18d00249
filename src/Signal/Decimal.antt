-- ===== src/Signal/Decimal.antt =====
-- Reading back what `itoa` of websocket.go writes.
use mephi_sfu_server_project.Common.{
  ℕ, zero, suc, ◌+◌, ◌-◌, ◌*◌, ◌/◌, ◌%◌, ◌^◌, ◌≤◌, ◌<◌, List, [], ◌∷◌, some, false, if◌then◌else◌,
  ◌==◌, ℤ, pos, negsuc, ◌≡◌, refl, ap, ◌∙◌, arith, All, ◌≢◌, Bool-cases, inl, inr,
}
use mephi_sfu_server_project.Signal.{fill, fill_int, put_sign, without_place, itoa, neg_int64}

-- The value of decimal digits behind a number that is already read.
unfoldable pub value : ℕ → List ℕ → ℕ
value n [] = n
value n (b ∷ rest) = value (n * 10 + (b - 48)) rest

-- The number that a decimal text stands for.
pub read : List ℕ → ℤ
unfolding value
read [] = pos 0
read (b ∷ rest) =
    if b == 45
    then elim (value 0 rest) [ zero ↦ pos 0 | suc n ↦ negsuc n ]
    else pos (value 0 (b ∷ rest))

pub value_nil : (n : ℕ) → value n [] ≡ n
unfolding value
value_nil n = refl

pub pow10 : ℕ → ℕ
pow10 zero = 1
pow10 (suc d) = 10 * pow10 d

abbrev pub IsDigit : ℕ → Type 0
IsDigit b = (48 ≤ b) × (b ≤ 57)

-- What the loop leaves: digits only, which stand for the number in front of what was there.
pub record Filled (d place n : ℕ) (out : List ℕ) : Type 0 where
  pub left : ℕ
  pub text : List ℕ
  pub ends : fill place n out ≡ some (left, text)
  pub room : place ≤ left + d
  pub digits : All IsDigit text
  pub same : value 0 text ≡ value n out

-- The loop ends within the buffer and leaves the places that it does not need.
pub fill_lem :
    (d place n : ℕ) (out : List ℕ)
    → n < pow10 d
    → d ≤ place
    → All IsDigit out
    → Filled d place n out
unfolding fill pow10 value
fill_lem zero zero n out h b a = record {
  left = zero;
  text = out;
  ends = ground (arith, h);
  room = omega arith;
  digits = a;
  same = ap (λ x. value x out) (omega arith);
}
fill_lem zero (suc place) n out h b a = record {
  left = suc place;
  text = out;
  ends = ground (arith, h);
  room = omega arith;
  digits = a;
  same = ap (λ x. value x out) (omega arith);
}
fill_lem (suc d) (suc place) n out h b a = elim (Bool-cases (n == 0)) [
  | inl e ↦ record {
    left = suc place;
    text = out;
    ends = rw (e, fill) refl;
    room = omega arith;
    digits = a;
    same = ap (λ x. value x out) (ground (arith, e));
  }
  | inr e ↦
      let digit : IsDigit (48 + n % 10) = (omega arith, omega arith) in
      let rest =
        fill_lem d place (n / 10) ((48 + n % 10) ∷ out) (omega arith) (omega arith) (digit, a) in
      record {
        left = rest.left;
        text = rest.text;
        ends = rw (e, fill) rest.ends;
        room = ground (arith, rest.room);
        digits = rest.digits;
        same = rest.same ∙ ap (λ x. value x out) (omega arith);
      }
]
fill_lem (suc d) zero n out h b a = absurd (omega arith)

pub fits : (n : ℕ) → n < 2 ^ 63 + 1 → n < pow10 19
unfolding pow10
fits n h = omega arith

read-digits : (n : ℕ) (text : List ℕ) → All IsDigit text → value 0 text ≡ n → read text ≡ pos n
unfolding read value
read-digits n [] a e = ap pos e
read-digits n (b ∷ rest) a e = ground (arith, a, e)

read-sign : (n : ℕ) (text : List ℕ) → value 0 text ≡ suc n → read (45 ∷ text) ≡ negsuc n
unfolding read
read-sign n text e = rw e refl

abbrev pub IsInt64 : ℤ → Type 0
IsInt64 (pos n) = n < 2 ^ 63
IsInt64 (negsuc n) = n < 2 ^ 63

read-zero : read (48 ∷ []) ≡ pos zero
unfolding read value
read-zero = refl

signed :
    (left : ℕ) (text : List ℕ) → 20 ≤ left + 19 → put_sign (some (left, text)) ≡ some (45 ∷ text)
unfolding put_sign
signed zero text h = absurd (omega arith)
signed (suc left) text h = refl

negative :
    (n : ℕ)
    → Filled 19 20 (suc n) []
    → negsuc n ≢ negsuc (2 ^ 63 - 1)
    → (text : List ℕ) × (itoa (negsuc n) ≡ some text) × (read text ≡ negsuc n)
unfolding itoa fill_int put_sign neg_int64
negative n f ne =
    let other : (suc n == 2 ^ 63) ≡ false = elim (Bool-cases (suc n == 2 ^ 63)) [
      | inl e ↦ absurd (ne (ap negsuc (ground (arith, e))))
      | inr e ↦ e
    ] in
    let sign : put_sign (fill 20 (suc n) []) ≡ some (45 ∷ f.text) =
      ap put_sign f.ends ∙ signed f.left f.text f.room in
    (
      45 ∷ f.text,
      rw (other, itoa, fill_int, neg_int64) sign,
      read-sign n f.text (f.same ∙ value_nil (suc n)),
    )

-- Every int64 but the least one is written within the buffer of 20 bytes, and the text reads back as
-- the number; the least one is written as the sign alone.
pub itoa_lem :
    (n : ℤ)
    → IsInt64 n
    → (n ≢ negsuc (2 ^ 63 - 1) → (text : List ℕ) × (itoa n ≡ some text) × (read text ≡ n))
      × (n ≡ negsuc (2 ^ 63 - 1) → itoa n ≡ some (45 ∷ []))
unfolding itoa fill_int put_sign neg_int64
itoa_lem (pos zero) h = (λ ne. (48 ∷ [], refl, read-zero), λ e. absurd (cc e))
itoa_lem (pos (suc n)) h =
    let f = fill_lem 19 20 (suc n) [] (fits (suc n) (omega arith)) (omega arith) tt in
    (
      λ ne. (
        f.text,
        ap without_place f.ends,
        read-digits (suc n) f.text f.digits (f.same ∙ value_nil (suc n)),
      ),
      λ e. absurd (cc e),
    )
itoa_lem (negsuc n) h =
    let f = fill_lem 19 20 (suc n) [] (fits (suc n) (omega arith)) (omega arith) tt in
    (λ ne. negative n f ne, λ e. ground (arith, e))
