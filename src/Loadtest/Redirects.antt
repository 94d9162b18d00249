-- ===== src/Loadtest/Redirects.antt =====
-- How often the headless client of client.go joins, as it is redirected.
use mephi_sfu_server_project.Common.{
  ℕ, zero, suc, ◌+◌, ◌≤◌, String, Bool, true, false, List, [], ◌∷◌, ◌++◌, Option, none, some, ◌≡◌,
  ◌≢◌, refl, ◌∙◌, arith, Bool-cases, inl, inr,
}
use mephi_sfu_server_project.Loadtest.{
  Event, cancelled, timed_out, ws_closed, settled, server_error, candidate, other, offer, redirect,
  Attempt, ClientError, Client, Sent, join, leave, answer, Verdict, finished, waiting, redirected,
  failed, signal, hold, connect, after_signal, wait_connected, attempt_step, run_attempt,
  after_attempt, attempts, too_many_redirects, conclude, handle_offer, at_stage, send,
}

-- The `join`s among the messages for the server.
pub joins : List Sent → ℕ
joins [] = 0
joins (join ∷ rest) = suc (joins rest)
joins (leave ∷ rest) = joins rest
joins (answer sdp ∷ rest) = joins rest

joins-snoc : (xs : List Sent) (msg : Sent) → joins (xs ++ msg ∷ []) ≡ joins xs + joins (msg ∷ [])
unfolding joins
joins-snoc [] msg = omega arith
joins-snoc (join ∷ xs) msg = omega (arith, joins-snoc xs msg)
joins-snoc (leave ∷ xs) msg = joins-snoc xs msg
joins-snoc (answer sdp ∷ xs) msg = joins-snoc xs msg

joins-leave : (xs : List Sent) → joins (xs ++ leave ∷ []) ≡ joins xs
unfolding joins
joins-leave xs = omega (arith, joins-snoc xs leave)

joins-handle_offer : (a : Option String) (c : Client) → joins (handle_offer a c).sent ≡ joins c.sent
unfolding joins
joins-handle_offer none c = refl
joins-handle_offer (some sdp) c = omega (arith, joins-snoc c.sent (answer sdp))

-- An end of an attempt, which is not the end of all attempts.
abbrev Ordinary : Verdict → Type 0
Ordinary finished = Unit
Ordinary waiting = Unit
Ordinary (redirected addr) = Unit
Ordinary (failed e) = e ≢ too_many_redirects

abbrev OrdinaryEnd : Option Verdict → Type 0
OrdinaryEnd none = Unit
OrdinaryEnd (some verdict) = Ordinary verdict

signal-joins :
    (events : List Event) (c : Client)
    → (joins (signal events c).0.sent ≡ joins c.sent) × OrdinaryEnd (signal events c).1
unfolding signal
signal-joins [] c = (refl, tt)
signal-joins (cancelled ∷ rest) c = (refl, λ e. cc e)
signal-joins (timed_out ∷ rest) c = (refl, λ e. cc e)
signal-joins (ws_closed ∷ rest) c = (refl, λ e. cc e)
signal-joins (settled ∷ rest) c = (refl, tt)
signal-joins (server_error ∷ rest) c = (refl, λ e. cc e)
signal-joins (candidate ∷ rest) c = signal-joins rest (at_stage "ice" c)
signal-joins (other ∷ rest) c = signal-joins rest c
signal-joins (offer a ∷ rest) c =
    let v = signal-joins rest (handle_offer a (at_stage "answer" c)) in
    (v.0 ∙ joins-handle_offer a (at_stage "answer" c), v.1)
signal-joins (redirect none ∷ rest) c = signal-joins rest c
signal-joins (redirect (some addr) ∷ rest) c = (refl, tt)

hold-joins :
    (events : List Event) (c : Client)
    → (joins (hold events c).0.sent ≡ joins c.sent) × Ordinary (hold events c).1
unfolding hold
hold-joins [] c = (refl, tt)
hold-joins (cancelled ∷ rest) c = (joins-leave c.sent, tt)
hold-joins (timed_out ∷ rest) c = (joins-leave c.sent, tt)
hold-joins (ws_closed ∷ rest) c = (refl, tt)
hold-joins (settled ∷ rest) c = hold-joins rest c
hold-joins (server_error ∷ rest) c = hold-joins rest c
hold-joins (candidate ∷ rest) c = hold-joins rest c
hold-joins (other ∷ rest) c = hold-joins rest c
hold-joins (offer a ∷ rest) c =
    let v = hold-joins rest (handle_offer a c) in (v.0 ∙ joins-handle_offer a c, v.1)
hold-joins (redirect a ∷ rest) c = hold-joins rest c

connect-joins :
    (a : Attempt) (c : Client)
    → (joins (connect a c).0.sent ≡ joins c.sent) × Ordinary (connect a c).1
unfolding connect
connect-joins a c = elim (Bool-cases a.is_connected) [
  | inl b ↦ rw (b, connect) (hold-joins a.holding _)
  | inr b ↦ rw (b, connect) (refl, λ e. cc e)
]

after_signal-joins :
    (a : Attempt) (c : Client) (ended : Option Verdict)
    → OrdinaryEnd ended
    → (joins (after_signal a c ended).0.sent ≡ joins c.sent) × Ordinary (after_signal a c ended).1
unfolding after_signal
after_signal-joins a c none o = connect-joins a c
after_signal-joins a c (some verdict) o = (refl, o)

-- An attempt that takes the joins from `n` to `m`.
record Tried (verdict : Verdict) (n m : ℕ) : Type 0 where
  least : n ≤ m
  most : m ≤ suc n
  goes_on : (addr : String) → verdict ≡ redirected addr → m ≡ suc n
  ordinary : Ordinary verdict

attempt_step-Tried :
    (ok : Bool) (stage : String) (err : ClientError) (c : Client) (next : Client × Verdict)
    → err ≢ too_many_redirects
    → Tried next.1 (joins c.sent) (joins next.0.sent)
    → Tried
        (attempt_step ok stage err c next).1
        (joins c.sent)
        (joins (attempt_step ok stage err c next).0.sent)
unfolding attempt_step
attempt_step-Tried true stage err c next ne t = t
attempt_step-Tried false stage err c next ne t = record {
  least = omega arith;
  most = omega arith;
  goes_on = λ addr e. absurd (cc e);
  ordinary = ne;
}

joined_Tried :
    (a : Attempt) (c : Client)
    → Tried
        (wait_connected a (send join (at_stage "join" c))).1
        (joins c.sent)
        (joins (wait_connected a (send join (at_stage "join" c))).0.sent)
unfolding wait_connected joins
joined_Tried a c =
    let sent = at_stage "signaling" (send join (at_stage "join" c)) in
    let (same, o) = signal-joins a.signaling sent in
    let v = after_signal-joins a (signal a.signaling sent).0 (signal a.signaling sent).1 o in
    let one_more = joins-snoc c.sent join in
    record {
      least = omega (arith, v.0, same, one_more);
      most = omega (arith, v.0, same, one_more);
      goes_on = λ addr e. omega (arith, v.0, same, one_more);
      ordinary = v.1;
    }

run_attempt-Tried :
    (a : Attempt) (c : Client)
    → Tried (run_attempt a c).1 (joins c.sent) (joins (run_attempt a c).0.sent)
unfolding run_attempt
run_attempt-Tried a c =
    attempt_step-Tried a.dials _ _ c _ (λ e. cc e)
      (attempt_step-Tried a.registers_codecs _ _ c _ (λ e. cc e)
        (attempt_step-Tried a.makes_connection _ _ c _ (λ e. cc e)
          (attempt_step-Tried a.makes_video _ _ c _ (λ e. cc e)
            (attempt_step-Tried a.makes_audio _ _ c _ (λ e. cc e)
              (attempt_step-Tried a.adds_video _ _ c _ (λ e. cc e)
                (attempt_step-Tried a.sends_join _ _ c _ (λ e. cc e) (joined_Tried a c)))))))

-- At most `left` attempts that take the joins from `n` to `m`.
pub record Joined (verdict : Verdict) (left n m : ℕ) : Type 0 where
  pub most : m ≤ n + left
  pub gives_up : verdict ≡ failed too_many_redirects → m ≡ n + left

after_attempt-Joined :
    (again : String → Client → Client × Verdict) (left n : ℕ) (c : Client) (verdict : Verdict)
    → Tried verdict n (joins c.sent)
    → ((next : String) → Joined (again next c).1 left (joins c.sent) (joins (again next c).0.sent))
    → Joined
        (after_attempt again c verdict).1
        (suc left)
        n
        (joins (after_attempt again c verdict).0.sent)
unfolding after_attempt
after_attempt-Joined again left n c finished t go = record {
  most = omega (arith, t.most);
  gives_up = λ e. absurd (cc e);
}
after_attempt-Joined again left n c waiting t go = record {
  most = omega (arith, t.most);
  gives_up = λ e. absurd (cc e);
}
after_attempt-Joined again left n c (redirected next) t go =
    let v = go next in
    let one = t.goes_on next refl in
    record { most = omega (arith, v.most, one); gives_up = λ e. omega (arith, v.gives_up e, one) }
after_attempt-Joined again left n c (failed err) t go = record {
  most = omega (arith, t.most);
  gives_up = λ e. absurd (t.ordinary (cc e));
}

pub attempts-joins :
    (world : ℕ → String → Attempt) (n left : ℕ) (addr : String) (c : Client)
    → Joined
        (attempts world n left addr c).1
        left
        (joins c.sent)
        (joins (attempts world n left addr c).0.sent)
unfolding attempts
attempts-joins world n zero addr c = record { most = omega arith; gives_up = λ e. omega arith }
attempts-joins world n (suc left) addr c =
    let r = run_attempt (world n addr) c in
    after_attempt-Joined (attempts world (suc n) left) left (joins c.sent) r.0 r.1
      (run_attempt-Tried (world n addr) c) (λ next. attempts-joins world (suc n) left next r.0)

pub joins-conclude :
    (c : Client) (verdict : Verdict) → joins (conclude c verdict).sent ≡ joins c.sent
unfolding conclude
joins-conclude c finished = refl
joins-conclude c waiting = refl
joins-conclude c (redirected addr) = refl
joins-conclude c (failed e) = refl
