-- ===== src/Turn.antt =====
-- internal/turn/server.go: the TURN server, and the credentials that it takes. A text is the list of its bytes here,
-- and a time is in nanoseconds since 1970. The package pion/turn, the hash and the sockets are parameters.
pub mod Auth
pub mod Lifecycle
use mephi_sfu_server_project.Common.{
  ℕ, zero, suc, ◌+◌, ◌-◌, ◌*◌, ◌/◌, ◌^◌, Bool, true, false, ◌&&◌, List, [], ◌∷◌, ◌++◌, Option, none,
  some, if◌then◌else◌, ltb, leb, ◌==◌, ℤ, pos, negsuc,
}
use mephi_sfu_server_project.Signal.{fill}

pub record TurnServerConfig : Type 0 where
  pub enabled : Bool
  pub public_ip : List ℕ
  pub port : ℤ
  pub realm : List ℕ
  pub static_secret : List ℕ
  pub min_port : ℤ
  pub max_port : ℤ

-- HMAC-SHA1 of a text under a secret, base64, and `turn.GenerateAuthKey` of a name, a realm and a password.
pub record Crypto : Type 0 where
  pub hmac_sha1 : List ℕ → List ℕ → List ℕ
  pub base64 : List ℕ → List ℕ
  pub auth_key : List ℕ → List ℕ → List ℕ → List ℕ

-- `%d` of a number from zero on: its digits, as the loop of `itoa` writes them.
unfoldable pub decimal : ℕ → List ℕ
unfolding fill
decimal zero = 48 ∷ []
decimal (suc n) = elim (fill 20 (suc n) []) [ none ↦ [] | some (place, text) ↦ text ]

-- `Unix`
abbrev pub unix : ℕ → ℕ
unix t = t / 1000000000

unfoldable pub password_of : Crypto → List ℕ → List ℕ → List ℕ
password_of c secret username = c.base64 (c.hmac_sha1 secret username)

-- The name and the password, at the time `now`.
unfoldable pub generate_credentials : Crypto → ℕ → List ℕ → ℕ → List ℕ → List ℕ × List ℕ
unfolding decimal password_of
generate_credentials c now peer_id duration secret =
    let username = decimal (unix (now + duration)) ++ 58 ∷ peer_id in
    (username, password_of c secret username)

-- `strings.SplitN(username, ":", 2)`; a text without a colon gives one part.
unfoldable pub split_colon : List ℕ → Option (List ℕ × List ℕ)
split_colon [] = none
split_colon (b ∷ text) =
    let rest = split_colon text in
    if b == 58 then some ([], text) else elim rest [ none ↦ none | some (l, r) ↦ some (b ∷ l, r) ]

-- Digits behind a number that is already read.
unfoldable pub parse_digits : ℕ → List ℕ → Option ℕ
parse_digits n [] = some n
parse_digits n (b ∷ text) =
    let more = parse_digits (n * 10 + (b - 48)) text in if leb 48 b && leb b 57 then more else none

unfoldable pub parse_positive : List ℕ → Option ℤ
unfolding parse_digits
parse_positive [] = none
parse_positive (b ∷ text) = elim (parse_digits 0 (b ∷ text)) [
  | none ↦ none
  | some n ↦ if ltb n (2 ^ 63) then some (pos n) else none
]

unfoldable pub parse_negative : List ℕ → Option ℤ
unfolding parse_digits
parse_negative [] = none
parse_negative (b ∷ text) = elim (parse_digits 0 (b ∷ text)) [
  | none ↦ none
  | some n ↦ if n == 0 then some (pos 0) else if leb n (2 ^ 63) then some (negsuc (n - 1)) else none
]

-- `strconv.ParseInt(s, 10, 64)`
unfoldable pub parse_int : List ℕ → Option ℤ
unfolding parse_positive parse_negative
parse_int [] = none
parse_int (b ∷ text) =
    if b == 43
    then parse_positive text
    else if b == 45
    then parse_negative text
    else parse_positive (b ∷ text)

-- `time.Now().Unix() > expirySecs`
abbrev pub expired : ℕ → ℤ → Bool
expired now (pos n) = ltb n (unix now)
expired now (negsuc n) = true

-- The key for a name, if it is taken, at the time `now`.
unfoldable pub auth_handler : Crypto → TurnServerConfig → ℕ → List ℕ → List ℕ → Option (List ℕ)
unfolding split_colon parse_int password_of
auth_handler c config now username realm = elim (split_colon username) [
  | none ↦ none
  | some (first, second) ↦ elim (parse_int first) [
    | none ↦ none
    | some expiry ↦
        if expired now expiry
        then none
        else some (c.auth_key username realm (password_of c config.static_secret username))
  ]
]

-- `opened` and `dropped` count the sockets that `Start` opened, and those that it closed again; `made` and `closed`
-- count pion's servers, which own the sockets that stayed open.
pub record Server : Type 0 where
  pub config : TurnServerConfig
  pub running : Bool
  pub opened : ℕ
  pub dropped : ℕ
  pub made : ℕ
  pub closed : ℕ

unfoldable pub new_server : TurnServerConfig → Server
new_server config = record {
  config = config;
  running = false;
  opened = 0;
  dropped = 0;
  made = 0;
  closed = 0;
}

-- `listens` and `makes` tell whether the socket and pion's server come to be; the flag is `err == nil`.
unfoldable pub start : Bool → Bool → Server → Server × Bool
start listens makes s =
    if s.running
    then (s, true)
    else if listens
    then if makes
      then (record s { opened = suc s.opened; made = suc s.made; running = true }, true)
      else (record s { opened = suc s.opened; dropped = suc s.dropped }, false)
    else (s, false)

-- `closes` tells whether pion's `Close` reports no error.
unfoldable pub close : Bool → Server → Server × Bool
close closes s =
    if s.running then (record s { closed = suc s.closed; running = false }, closes) else (s, true)
