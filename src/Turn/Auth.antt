-- ===== src/Turn/Auth.antt =====
-- The credentials that the TURN server makes are those that it takes.
use mephi_sfu_server_project.Common.{
  subst, ℕ, zero, suc, ◌+◌, ◌-◌, ◌*◌, ◌^◌, ◌<◌, List, [], ◌∷◌, ◌++◌, Option, none, some,
  if◌then◌else◌, ltb, leb, pos, ◌≡◌, refl, sym, ap, ◌∙◌, arith, All,
}
use mephi_sfu_server_project.Signal.Decimal.{value, value_nil, IsDigit, fill_lem, fits}
use mephi_sfu_server_project.Turn.{
  TurnServerConfig, Crypto, decimal, unix, generate_credentials, split_colon, parse_digits,
  parse_positive, parse_int, auth_handler,
}

parse_digits-value :
    (n : ℕ) (text : List ℕ) → All IsDigit text → parse_digits n text ≡ some (value n text)
unfolding parse_digits value
parse_digits-value n [] a = refl
parse_digits-value n (b ∷ text) (d, a) =
    ground (arith, d, parse_digits-value (n * 10 + (b - 48)) text a)

split_colon-append :
    (text rest : List ℕ) → All IsDigit text → split_colon (text ++ 58 ∷ rest) ≡ some (text, rest)
unfolding split_colon
split_colon-append [] rest a = refl
split_colon-append (b ∷ text) rest (d, a) = ground (arith, d, split_colon-append text rest a)

parse_int-digits :
    (n : ℕ) (b : ℕ) (text : List ℕ)
    → n < 2 ^ 63
    → All IsDigit (b ∷ text)
    → value 0 (b ∷ text) ≡ n
    → parse_int (b ∷ text) ≡ some (pos n)
unfolding parse_int parse_positive
parse_int-digits n b text h a e = ground (arith, h, a.0, e, parse_digits-value 0 (b ∷ text) a)

-- The digits of a number, as they are written and read.
record Written (n : ℕ) : Type 0 where
  digits : All IsDigit (decimal n)
  read : parse_int (decimal n) ≡ some (pos n)

nonempty :
    (n : ℕ) (text : List ℕ)
    → suc n < 2 ^ 63
    → All IsDigit text
    → value 0 text ≡ suc n
    → parse_int text ≡ some (pos (suc n))
unfolding value
nonempty n [] h a e = ground (arith, e)
nonempty n (b ∷ text) h a e = parse_int-digits (suc n) b text h a e

decimal_lem : (n : ℕ) → n < 2 ^ 63 → Written n
unfolding decimal parse_int parse_positive parse_digits
decimal_lem zero h = record { digits = ((omega arith, omega arith), tt); read = refl }
decimal_lem (suc n) h =
    let f = fill_lem 19 20 (suc n) [] (fits (suc n) (omega arith)) (omega arith) tt in
    let text : decimal (suc n) ≡ f.text = rw (f.ends, decimal) refl in
    record {
      digits = subst (All IsDigit) (sym text) f.digits;
      read = ap parse_int text ∙ nonempty n f.text h f.digits (f.same ∙ value_nil (suc n));
    }

in_time :
    (a b : ℕ) (key : Option (List ℕ))
    → (if ltb b a then none else key) ≡ (if leb a b then key else none)
in_time a b key = ground arith

-- What `GenerateCredentials` gives for any peer, its name with or without colons, the server takes until the second in
-- which they expire, with the key of that password, and refuses from the next second on; the secret is the server's,
-- and the time of expiry is within an int64.
pub auth_handler-generate_credentials :
    (c : Crypto) (config : TurnServerConfig) (now later duration : ℕ) (peer_id realm : List ℕ)
    → unix (now + duration) < 2 ^ 63
    → auth_handler c config later
        (generate_credentials c now peer_id duration config.static_secret).0
        realm
      ≡ (if leb (unix later) (unix (now + duration))
          then some (
              c.auth_key
                (generate_credentials c now peer_id duration config.static_secret).0
                realm
                (generate_credentials c now peer_id duration config.static_secret).1)
          else none)
unfolding auth_handler generate_credentials
auth_handler-generate_credentials c config now later duration peer_id realm h =
    let w = decimal_lem (unix (now + duration)) h in
    rw (split_colon-append _ peer_id w.digits, auth_handler, w.read)
      (in_time (unix later) (unix (now + duration)) _)
