-- ===== src/Loadtest/Termination.antt =====
-- A headless client comes to an end: the timers end the loops of each attempt, and Loadtest/Redirects bounds the
-- attempts.
use mephi_sfu_server_project.Common.{
  ◌≤◌, ℕ, zero, suc, String, Bool, true, false, List, [], ◌∷◌, ◌++◌, ◌+◌, refl, ◌∙◌, arith, Option,
  none, some, ◌≡◌, Bool-cases, inl, inr,
}
use mephi_sfu_server_project.Loadtest.{
  too_many_redirects, Event, cancelled, timed_out, ws_closed, settled, server_error, candidate,
  other, offer, redirect, Attempt, ClientError, Client, Verdict, finished, waiting, redirected,
  failed, signal, hold, connect, after_signal, wait_connected, attempt_step, run_attempt,
  after_attempt, attempts, max_attempts, observe, client_spawned, run, handle_offer, at_stage, send,
  join,
}
use mephi_sfu_server_project.Loadtest.Accounting.{IsOver}
use mephi_sfu_server_project.Loadtest.Redirects.{joins, attempts-joins, joins-conclude}

-- Something among the events ends the loop until the client is connected.
abbrev pub ends_signaling : List Event → Bool
ends_signaling [] = false
ends_signaling (cancelled ∷ rest) = true
ends_signaling (timed_out ∷ rest) = true
ends_signaling (ws_closed ∷ rest) = true
ends_signaling (settled ∷ rest) = true
ends_signaling (server_error ∷ rest) = true
ends_signaling (redirect (some addr) ∷ rest) = true
ends_signaling (redirect none ∷ rest) = ends_signaling rest
ends_signaling (offer a ∷ rest) = ends_signaling rest
ends_signaling (candidate ∷ rest) = ends_signaling rest
ends_signaling (other ∷ rest) = ends_signaling rest

-- Something among the events ends the loop that holds the connection.
abbrev pub ends_holding : List Event → Bool
ends_holding [] = false
ends_holding (cancelled ∷ rest) = true
ends_holding (timed_out ∷ rest) = true
ends_holding (ws_closed ∷ rest) = true
ends_holding (settled ∷ rest) = ends_holding rest
ends_holding (server_error ∷ rest) = ends_holding rest
ends_holding (redirect a ∷ rest) = ends_holding rest
ends_holding (offer a ∷ rest) = ends_holding rest
ends_holding (candidate ∷ rest) = ends_holding rest
ends_holding (other ∷ rest) = ends_holding rest

-- The verdict on an attempt.
abbrev Ended : Verdict → Type 0
Ended waiting = ⊥
Ended finished = Unit
Ended (redirected addr) = Unit
Ended (failed e) = Unit

abbrev EndedSignaling : Option Verdict → Type 0
EndedSignaling none = Unit
EndedSignaling (some verdict) = Ended verdict

signal_ends :
    (events : List Event) (c : Client)
    → ends_signaling events ≡ true
    → EndedSignaling (signal events c).1
unfolding signal
signal_ends [] c e = cc e
signal_ends (cancelled ∷ rest) c e = tt
signal_ends (timed_out ∷ rest) c e = tt
signal_ends (ws_closed ∷ rest) c e = tt
signal_ends (settled ∷ rest) c e = tt
signal_ends (server_error ∷ rest) c e = tt
signal_ends (redirect (some addr) ∷ rest) c e = tt
signal_ends (redirect none ∷ rest) c e = signal_ends rest c e
signal_ends (offer a ∷ rest) c e = signal_ends rest (handle_offer a (at_stage "answer" c)) e
signal_ends (candidate ∷ rest) c e = signal_ends rest (at_stage "ice" c) e
signal_ends (other ∷ rest) c e = signal_ends rest c e

hold_ends :
    (events : List Event) (c : Client) → ends_holding events ≡ true → Ended (hold events c).1
unfolding hold
hold_ends [] c e = cc e
hold_ends (cancelled ∷ rest) c e = tt
hold_ends (timed_out ∷ rest) c e = tt
hold_ends (ws_closed ∷ rest) c e = tt
hold_ends (settled ∷ rest) c e = hold_ends rest c e
hold_ends (server_error ∷ rest) c e = hold_ends rest c e
hold_ends (redirect a ∷ rest) c e = hold_ends rest c e
hold_ends (offer a ∷ rest) c e = hold_ends rest (handle_offer a c) e
hold_ends (candidate ∷ rest) c e = hold_ends rest c e
hold_ends (other ∷ rest) c e = hold_ends rest c e

connect_ends : (a : Attempt) (c : Client) → ends_holding a.holding ≡ true → Ended (connect a c).1
unfolding connect
connect_ends a c e = elim (Bool-cases a.is_connected) [
  | inl b ↦ simp (b, connect) (hold_ends a.holding _ e)
  | inr b ↦ simp (b, connect) tt
]

after_signal_ends :
    (a : Attempt) (c : Client) (ended : Option Verdict)
    → ends_holding a.holding ≡ true
    → EndedSignaling ended
    → Ended (after_signal a c ended).1
unfolding after_signal
after_signal_ends a c none e s = connect_ends a c e
after_signal_ends a c (some verdict) e s = s

attempt_step_ends :
    (ok : Bool) (stage : String) (err : ClientError) (c : Client) (next : Client × Verdict)
    → Ended next.1
    → Ended (attempt_step ok stage err c next).1
unfolding attempt_step
attempt_step_ends true stage err c next v = v
attempt_step_ends false stage err c next v = tt

run_attempt_ends :
    (a : Attempt) (c : Client)
    → ends_signaling a.signaling ≡ true
    → ends_holding a.holding ≡ true
    → Ended (run_attempt a c).1
unfolding run_attempt wait_connected
run_attempt_ends a c s h =
    let joined = at_stage "signaling" (send join (at_stage "join" c)) in
    attempt_step_ends a.dials _ _ c _ (
      attempt_step_ends a.registers_codecs _ _ c _ (
        attempt_step_ends a.makes_connection _ _ c _ (
          attempt_step_ends a.makes_video _ _ c _ (
            attempt_step_ends a.makes_audio _ _ c _ (
              attempt_step_ends a.adds_video _ _ c _ (
                attempt_step_ends a.sends_join _ _ c _
                  (after_signal_ends a _ _ h (signal_ends a.signaling joined s))))))))

after_attempt_ends :
    (again : String → Client → Client × Verdict) (c : Client) (verdict : Verdict)
    → ((next : String) (c' : Client) → IsOver (again next c').1)
    → Ended verdict
    → IsOver (after_attempt again c verdict).1
unfolding after_attempt
after_attempt_ends again c finished go e = tt
after_attempt_ends again c waiting go e = e
after_attempt_ends again c (redirected next) go e = go next c
after_attempt_ends again c (failed err) go e = tt

-- An attempt whose loops get these events before their timers: the timeout of the connection, and the duration for
-- which it is held.
abbrev pub timed : Attempt → Attempt
timed a = record a {
  signaling = a.signaling ++ timed_out ∷ [];
  holding = a.holding ++ timed_out ∷ [];
}

timer_ends_signaling : (events : List Event) → ends_signaling (events ++ timed_out ∷ []) ≡ true
timer_ends_signaling [] = refl
timer_ends_signaling (cancelled ∷ rest) = refl
timer_ends_signaling (timed_out ∷ rest) = refl
timer_ends_signaling (ws_closed ∷ rest) = refl
timer_ends_signaling (settled ∷ rest) = refl
timer_ends_signaling (server_error ∷ rest) = refl
timer_ends_signaling (redirect (some addr) ∷ rest) = refl
timer_ends_signaling (redirect none ∷ rest) = timer_ends_signaling rest
timer_ends_signaling (offer a ∷ rest) = timer_ends_signaling rest
timer_ends_signaling (candidate ∷ rest) = timer_ends_signaling rest
timer_ends_signaling (other ∷ rest) = timer_ends_signaling rest

timer_ends_holding : (events : List Event) → ends_holding (events ++ timed_out ∷ []) ≡ true
timer_ends_holding [] = refl
timer_ends_holding (cancelled ∷ rest) = refl
timer_ends_holding (timed_out ∷ rest) = refl
timer_ends_holding (ws_closed ∷ rest) = refl
timer_ends_holding (settled ∷ rest) = timer_ends_holding rest
timer_ends_holding (server_error ∷ rest) = timer_ends_holding rest
timer_ends_holding (redirect a ∷ rest) = timer_ends_holding rest
timer_ends_holding (offer a ∷ rest) = timer_ends_holding rest
timer_ends_holding (candidate ∷ rest) = timer_ends_holding rest
timer_ends_holding (other ∷ rest) = timer_ends_holding rest

module _ (world : ℕ → String → Attempt) where
  abbrev in_time : ℕ → String → Attempt
  in_time n addr = timed (world n addr)

  attempts_end :
      (n left : ℕ) (addr : String) (c : Client) → IsOver (attempts in_time n left addr c).1
  unfolding attempts
  attempts_end n zero addr c = tt
  attempts_end n (suc left) addr c =
      after_attempt_ends (attempts in_time (suc n) left) _ _
        (λ next c'. attempts_end (suc n) left next c')
        (run_attempt_ends (in_time n addr) c (timer_ends_signaling (world n addr).signaling)
          (timer_ends_holding (world n addr).holding))

  -- Whatever comes in each attempt before its timers, and wherever the client is redirected to: its run comes to its
  -- end; it sends at most five `join`s; and where it gives up for too many redirects, it has sent just five.
  pub run_ends :
      (addr : String) (c : Client)
      → IsOver (run (λ n next. timed (world n next)) addr c).1
        × (joins (run (λ n next. timed (world n next)) addr c).0.sent ≤ joins c.sent + 5)
        × ((run (λ n next. timed (world n next)) addr c).1 ≡ failed too_many_redirects
            → joins (run (λ n next. timed (world n next)) addr c).0.sent ≡ joins c.sent + 5)
  unfolding run
  run_ends addr c =
      let spawned = record c { metrics = observe client_spawned c.metrics } in
      let all = attempts in_time 0 max_attempts addr spawned in
      let j = attempts-joins in_time 0 max_attempts addr spawned in
      let kept = joins-conclude all.0 all.1 in
      (
        attempts_end 0 max_attempts addr spawned,
        omega (arith, j.most, kept),
        λ e. kept ∙ j.gives_up e,
      )
