-- ===== src/Kafka/Accounting.antt =====
-- Every event that is emitted is sent, dropped or still in the channel of producer.go.
use mephi_sfu_server_project.Common.{
  ◌∙◌, ℕ, ◌+◌, ◌≤◌, Bool, true, false, List, [], ◌∷◌, ◌++◌, none, some, length, ◌≡◌, refl, sym,
  arith, u64, count, count-append, if◌then◌else◌, ◌==◌, ◌&&◌, not, ◌∙◌, Bool-cases, Option-cases,
  inl, inr, length-append, subst, ap,
}
use mathlib.Core.List.{append_assoc, append-nil}
use mephi_sfu_server_project.Kafka.{
  SfuEvent, AsyncProducer, Wire, accepts, take_event, drop_event, emit, send, send_all, drain,
  Ready, done, event_ready, write_round, cancel, Step, emits, round, cancels, step, run,
  new_async_producer,
}

-- The events of the steps, in their order.
abbrev pub events_of : List Step → List SfuEvent
events_of [] = []
events_of (emits waiting event ∷ rest) = event ∷ events_of rest
events_of (round ready ∷ rest) = events_of rest
events_of (cancels ∷ rest) = events_of rest

pub events_of_cons :
    (s : Step) (rest : List Step) → events_of (s ∷ rest) ≡ events_of (s ∷ []) ++ events_of rest
events_of_cons (emits waiting event) rest = refl
events_of_cons (round ready) rest = refl
events_of_cons cancels rest = refl

-- The events `es` were emitted: each is sent, dropped or in the channel, just as often as it was emitted; the counters
-- are the numbers of those that were sent and dropped, modulo 2^64; and the channel holds no more than its buffer, or
-- one event that is handed over, where it has no buffer.
pub record Accounts (es : List SfuEvent) (p : AsyncProducer) : Type 0 where
  pub settled : (f : SfuEvent → Bool) → count f p.taken + count f p.lost + count f p.ch ≡ count f es
  pub sends : p.sent ≡ u64 (length p.taken)
  pub drops : p.dropped ≡ u64 (length p.lost)
  pub bound : length p.ch ≤ (if p.buffer_size == 0 then 1 else p.buffer_size)

-- Everything marshals.
pub record Marshals (wire : Wire) : Type 0 where
  pub payloads : (event : SfuEvent) → wire.payload_ok event ≡ true
  pub events : (event : SfuEvent) → wire.marshal event ≡ true

-- From `p` to `q` the events `es` were sent or dropped.
record Settles (es : List SfuEvent) (p q : AsyncProducer) : Type 0 where
  more :
      (f : SfuEvent → Bool)
      → count f q.taken + count f q.lost ≡ count f p.taken + count f p.lost + count f es
  ch : q.ch ≡ p.ch
  buffer : q.buffer_size ≡ p.buffer_size
  sends : p.sent ≡ u64 (length p.taken) → q.sent ≡ u64 (length q.taken)
  drops : p.dropped ≡ u64 (length p.lost) → q.dropped ≡ u64 (length q.lost)

take_event-Settles :
    (event : SfuEvent) (p : AsyncProducer) → Settles (event ∷ []) p (take_event event p)
take_event-Settles event p = record {
  more = λ f. omega (arith, count-append f p.taken (event ∷ []));
  ch = refl;
  buffer = refl;
  sends = λ e. omega (arith, e, length-append p.taken (event ∷ []));
  drops = λ e. e;
}

drop_event-Settles :
    (event : SfuEvent) (p : AsyncProducer) → Settles (event ∷ []) p (drop_event event p)
drop_event-Settles event p = record {
  more = λ f. omega (arith, count-append f p.lost (event ∷ []));
  ch = refl;
  buffer = refl;
  sends = λ e. e;
  drops = λ e. omega (arith, e, length-append p.lost (event ∷ []));
}

module _ (wire : Wire) (m : Marshals wire) where
  send-Settles : (event : SfuEvent) (p : AsyncProducer) → Settles (event ∷ []) p (send wire event p)
  unfolding send
  send-Settles event p = elim (Bool-cases (p.has_writer && not (wire.write event))) [
    | inl lost ↦
        let same : drop_event event p ≡ send wire event p = ground (arith, lost, m.events event) in
        subst (Settles (event ∷ []) p) same (drop_event-Settles event p)
    | inr took ↦
        let same : take_event event p ≡ send wire event p = ground (arith, took, m.events event) in
        subst (Settles (event ∷ []) p) same (take_event-Settles event p)
  ]

  send_all-Settles :
      (events : List SfuEvent) (p : AsyncProducer) → Settles events p (send_all wire events p)
  unfolding send_all
  send_all-Settles [] p = record {
    more = λ f. omega arith;
    ch = refl;
    buffer = refl;
    sends = λ e. e;
    drops = λ e. e;
  }
  send_all-Settles (event ∷ rest) p =
      let first = send-Settles event p in
      let later = send_all-Settles rest (send wire event p) in
      record {
        more = λ f. omega (arith, later.more f, first.more f);
        ch = later.ch ∙ first.ch;
        buffer = later.buffer ∙ first.buffer;
        sends = λ e. later.sends (first.sends e);
        drops = λ e. later.drops (first.drops e);
      }

  drain-Accounts :
      (es : List SfuEvent) (p : AsyncProducer) → Accounts es p → Accounts es (drain wire p)
  unfolding drain
  drain-Accounts es p v =
      let w = send_all-Settles p.ch (record p { ch = []; ch_closed = true; stopped = true }) in
      let empty : (drain wire p).ch ≡ [] = w.ch in
      record {
        settled = λ f. omega (arith, v.settled f, w.more f, ap (count f) empty);
        sends = w.sends v.sends;
        drops = w.drops v.drops;
        bound = ground (arith, ap length empty);
      }

  receive-Accounts :
      (es ch : List SfuEvent) (p : AsyncProducer)
      → p.ch ≡ ch
      → p.stopped ≡ false
      → Accounts es p
      → Accounts es (write_round wire event_ready p)
  unfolding write_round
  receive-Accounts es [] p e live v = simp (live, e, write_round) v
  receive-Accounts es (event ∷ rest) p e live v =
      let w = send-Settles event (record p { ch = rest }) in
      let now : write_round wire event_ready p ≡ send wire event (record p { ch = rest }) =
        simp (live, e, write_round) refl in
      subst (Accounts es) (sym now) (record {
        settled = λ f. omega (arith, v.settled f, w.more f, ap (count f) w.ch, ap (count f) e);
        sends = w.sends v.sends;
        drops = w.drops v.drops;
        bound = ground (arith, ap length w.ch, ap length e, w.buffer, v.bound);
      })

  round-Accounts :
      (ready : Ready) (es : List SfuEvent) (p : AsyncProducer)
      → Accounts es p
      → Accounts es (write_round wire ready p)
  unfolding write_round
  round-Accounts done es p v = elim (Bool-cases (p.cancelled && not p.stopped)) [
    | inl e ↦ rw (e, write_round) (drain-Accounts es p v)
    | inr e ↦ rw (e, write_round) v
  ]
  round-Accounts event_ready es p v = elim (Bool-cases p.stopped) [
    | inl e ↦ simp (e, write_round) v
    | inr e ↦ receive-Accounts es p.ch p refl e v
  ]

  emit-Accounts :
      (waiting : Bool) (event : SfuEvent) (es : List SfuEvent) (p q : AsyncProducer)
      → emit wire waiting event p ≡ some q
      → Accounts es p
      → Accounts (es ++ event ∷ []) q
  unfolding emit
  emit-Accounts waiting event es p q e v = elim (Bool-cases p.ch_closed) [
    | inl c ↦ absurd (ground (arith, m.payloads event, c, e))
    | inr c ↦ elim (Bool-cases (accepts waiting p)) [
      | inl a ↦
          let same : record p { ch = p.ch ++ event ∷ [] } ≡ q =
            ground (arith, m.payloads event, c, a, e) in
          subst (Accounts (es ++ event ∷ [])) same (record {
            settled = λ f. omega (
              arith,
              v.settled f,
              count-append f es (event ∷ []),
              count-append f p.ch (event ∷ []),
            );
            sends = v.sends;
            drops = v.drops;
            bound = ground (arith, a, v.bound, length-append p.ch (event ∷ []));
          })
      | inr a ↦
          let same : drop_event event p ≡ q = ground (arith, m.payloads event, c, a, e) in
          let w = drop_event-Settles event p in
          subst (Accounts (es ++ event ∷ [])) same (record {
            settled = λ f. omega (arith, v.settled f, w.more f, count-append f es (event ∷ []));
            sends = v.sends;
            drops = w.drops v.drops;
            bound = v.bound;
          })
    ]
  ]

  step-Accounts :
      (s : Step) (es : List SfuEvent) (p q : AsyncProducer)
      → step wire s p ≡ some q
      → Accounts es p
      → Accounts (es ++ events_of (s ∷ [])) q
  unfolding step cancel
  step-Accounts (emits waiting event) es p q e v = emit-Accounts waiting event es p q e v
  step-Accounts (round ready) es p q e v =
      let same : write_round wire ready p ≡ q = ground (arith, e) in
      subst (λ x. Accounts x q) (sym (append-nil es))
        (subst (Accounts es) same (round-Accounts ready es p v))
  step-Accounts cancels es p q e v =
      let same : cancel p ≡ q = ground (arith, e) in
      let kept : Accounts es (cancel p) = record {
        settled = v.settled;
        sends = v.sends;
        drops = v.drops;
        bound = v.bound;
      } in
      subst (λ x. Accounts x q) (sym (append-nil es)) (subst (Accounts es) same kept)

  run-Accounts :
      (steps : List Step) (es : List SfuEvent) (p q : AsyncProducer)
      → run wire steps p ≡ some q
      → Accounts es p
      → Accounts (es ++ events_of steps) q
  unfolding run
  run-Accounts [] es p q e v =
      let same : p ≡ q = ground (arith, e) in
      subst (λ x. Accounts x q) (sym (append-nil es)) (subst (Accounts es) same v)
  run-Accounts (s ∷ rest) es p q e v = elim (Option-cases (step wire s p)) [
    | inl stuck ↦ absurd (ground (arith, rw (stuck, run) at e))
    | inr (x, ok) ↦
        let w =
          run-Accounts rest (es ++ events_of (s ∷ [])) x q (rw (ok, run) at e)
            (step-Accounts s es p x ok v) in
        let joined : (es ++ events_of (s ∷ [])) ++ events_of rest ≡ es ++ events_of (s ∷ rest) =
          append_assoc es (events_of (s ∷ [])) (events_of rest)
          ∙ ap (λ x. es ++ x) (sym (events_of_cons s rest)) in
        subst (λ x. Accounts x q) joined w
  ]

  -- Where everything marshals, after any steps of a new producer that do not panic: each event that was emitted is
  -- sent, dropped or in the channel, just as often as it was emitted, and no other is; the counters are the numbers of
  -- those that were sent and dropped, modulo 2^64; and the channel is within its buffer, or holds one event that is
  -- handed over where it has no buffer.
  pub run-accounted :
      (enabled : Bool) (size : ℕ) (steps : List Step) (q : AsyncProducer)
      → run wire steps (new_async_producer enabled size) ≡ some q
      → Accounts (events_of steps) q
  unfolding new_async_producer
  run-accounted enabled size steps q e =
      run-Accounts steps [] (new_async_producer enabled size) q e
        (record { settled = λ f. omega arith; sends = refl; drops = refl; bound = ground arith })

send_all-closed :
    (wire : Wire) (events : List SfuEvent) (p : AsyncProducer)
    → (send_all wire events p).ch_closed ≡ p.ch_closed
unfolding send_all send
send_all-closed wire [] p = refl
send_all-closed wire (event ∷ rest) p =
    ground (arith, send_all-closed wire rest (send wire event p))

-- Once the write loop has drained the channel, an `Emit` whose payload marshals panics, whatever was in
-- the channel before.
pub emit-drain :
    (wire : Wire) (waiting : Bool) (event : SfuEvent) (p : AsyncProducer)
    → wire.payload_ok event ≡ true
    → emit wire waiting event (drain wire p) ≡ none
unfolding emit drain
emit-drain wire waiting event p ok =
    ground (
      arith,
      ok,
      send_all-closed wire p.ch (record p { ch = []; ch_closed = true; stopped = true }),
    )
