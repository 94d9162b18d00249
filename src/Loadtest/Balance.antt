-- ===== src/Loadtest/Balance.antt =====
-- The ramp-up starts no client too many, and spreads them evenly over the rooms.
use native.Mathlib.Nat.{suc-mod, mod-lt, mod-eq_of_lt, mod_self, zero-mod}
use mephi_sfu_server_project.Common.{
  ℕ, zero, suc, ◌+◌, ◌%◌, ◌≤◌, ◌<◌, String, Bool, true, List, [], ◌∷◌, ◌++◌, none, length, ◌≡◌, ◌≢◌,
  refl, ◌∙◌, ap, arith, if◌then◌else◌, ltb, ◌==◌, Bool-cases, Option-cases, inl, inr, length-append,
  ◌⊎◌,
}
use mephi_sfu_server_project.Loadtest.Runner.{
  RunnerConfig, ClientConfig, Event, context_done, tick, Ramp, at_least_one, nth, target,
  client_config, ramp, new_ramp,
}

-- The number of clients that go to a room.
pub count_room : ℕ → List ClientConfig → ℕ
count_room k [] = 0
count_room k (c ∷ rest) = (if c.room == k then 1 else 0) + count_room k rest

count_room-append :
    (k : ℕ) (xs ys : List ClientConfig)
    → count_room k (xs ++ ys) ≡ count_room k xs + count_room k ys
unfolding count_room
count_room-append k [] ys = omega arith
count_room-append k (c ∷ xs) ys = ground (arith, count_room-append k xs ys)

nth-within : (n : ℕ) (xs : List String) → n < length xs → nth n xs ≢ none
unfolding nth
nth-within n [] h = absurd (omega arith)
nth-within zero (a ∷ xs) h = ground arith
nth-within (suc n) (a ∷ xs) h = nth-within n xs (omega arith)

target_there : (cfg : RunnerConfig) (n : ℕ) → target cfg n ≢ none
unfolding target
target_there cfg n = elim (Bool-cases (ltb 0 (length cfg.addrs))) [
  | inl e ↦ rw (e, target) (nth-within _ cfg.addrs (mod-lt n (ground (arith, e))))
  | inr e ↦ rw (e, target) (ground arith)
]

-- The rounds over the rooms that the first `n` clients made in full.
full_rounds : ℕ → ℕ → ℕ
full_rounds rooms zero = 0
full_rounds rooms (suc n) = full_rounds rooms n + (if suc (n % rooms) == rooms then 1 else 0)

next_round :
    (rooms n k : ℕ)
    → k < rooms
    → full_rounds rooms n + (if ltb k (n % rooms) then 1 else 0) + (if n % rooms == k then 1 else 0)
      ≡ full_rounds rooms (suc n) + (if ltb k (suc n % rooms) then 1 else 0)
unfolding full_rounds
next_round rooms n k h =
    let below : n % rooms < rooms = mod-lt n (omega arith) in
    elim (Bool-cases (suc (n % rooms) == rooms)) [
      | inl e ↦
          let last : suc (n % rooms) ≡ rooms = ground (arith, e) in
          let back : suc n % rooms ≡ 0 =
            suc-mod n rooms ∙ ap (λ x. x % rooms) last ∙ mod_self rooms in
          ground (arith, e, back, below, h)
      | inr e ↦
          let on : suc n % rooms ≡ suc (n % rooms) =
            suc-mod n rooms ∙ mod-eq_of_lt (ground (arith, e, below)) in
          ground (arith, e, on, below, h)
    ]

-- The clients that were started are the first ones, room by room.
record IsEven (cfg : RunnerConfig) (r : Ramp) : Type 0 where
  begun : length r.started ≤ cfg.total_clients
  counted : r.spawned ≡ length r.started
  spread :
      (k : ℕ)
      → k < at_least_one cfg.rooms
      → count_room k r.started
        ≡ full_rounds (at_least_one cfg.rooms) r.spawned
          + (if ltb k (r.spawned % at_least_one cfg.rooms) then 1 else 0)

-- Of any two rooms, neither has more than one client more than the other; no client was started too many; and the
-- number that `Run` prints is that of the clients started, or one more, where all were started.
pub record IsFair (cfg : RunnerConfig) (r : Ramp) : Type 0 where
  pub begun : length r.started ≤ cfg.total_clients
  pub printed :
      (r.spawned ≡ length r.started)
      ⊎ ((r.spawned ≡ suc (length r.started)) × (length r.started ≡ cfg.total_clients))
  pub fair :
      (j k : ℕ)
      → j < at_least_one cfg.rooms
      → k < at_least_one cfg.rooms
      → count_room j r.started ≤ count_room k r.started + 1

IsFair-now :
    (cfg : RunnerConfig) (r : Ramp)
    → IsEven cfg r
    → (done : Bool) → IsFair cfg (record r { is_done = done })
IsFair-now cfg r v done = record {
  begun = v.begun;
  printed = inl v.counted;
  fair = λ j k a b. ground (arith, v.spread j a, v.spread k b);
}

-- A client that is started next.
grown :
    (cfg : RunnerConfig) (r : Ramp) (c : ClientConfig)
    → IsEven cfg r
    → r.spawned < cfg.total_clients
    → c.room ≡ r.spawned % at_least_one cfg.rooms
    → IsEven cfg (record r { spawned = suc r.spawned; started = r.started ++ c ∷ [] })
unfolding count_room
grown cfg r c v more here = record {
  begun = ground (arith, more, v.counted, length-append r.started (c ∷ []));
  counted = ground (arith, v.counted, length-append r.started (c ∷ []));
  spread = λ k h.
      count_room-append k r.started (c ∷ [])
      ∙ ground (arith, v.spread k h, here, next_round (at_least_one cfg.rooms) r.spawned k h);
}

ramp-IsFair :
    (cfg : RunnerConfig) (events : List Event) (r : Ramp)
    → IsEven cfg r
    → IsFair cfg (ramp cfg events r)
unfolding ramp client_config
ramp-IsFair cfg [] r v = IsFair-now cfg r v r.is_done
ramp-IsFair cfg (context_done ∷ rest) r v = IsFair-now cfg r v true
ramp-IsFair cfg (tick time ∷ rest) r v = elim (Bool-cases (ltb cfg.total_clients (suc r.spawned))) [
  | inl e ↦
      simp (e, ramp)
        (record {
          begun = v.begun;
          printed = inr (ground (arith, v.counted), ground (arith, e, v.begun, v.counted));
          fair = (IsFair-now cfg r v true).fair;
        })
  | inr e ↦ elim (Option-cases (target cfg r.spawned)) [
    | inl gone ↦ absurd (target_there cfg r.spawned gone)
    | inr (addr, found) ↦
        simp (e, ramp, client_config, found)
          (ramp-IsFair cfg rest _ (grown cfg r _ v (ground (arith, e)) refl))
  ]
]

-- Whatever ticks come, and whenever the context is done, the ramp-up is fair: it starts at most the clients that are
-- wanted, and of any two rooms neither gets more than one client more than the other; the number that it prints is
-- that of the clients started, and one more once all were started.
pub ramp-new_ramp-IsFair :
    (cfg : RunnerConfig) (events : List Event) → IsFair cfg (ramp cfg events new_ramp)
unfolding new_ramp count_room full_rounds
ramp-new_ramp-IsFair cfg events = ramp-IsFair cfg events _ (record {
  begun = omega arith;
  counted = refl;
  spread = λ k h. ground (arith, zero-mod (at_least_one cfg.rooms));
})
