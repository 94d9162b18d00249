-- ===== src/Kafka/Order.antt =====
-- The order in which the producer of producer.go writes events.
use mathlib.Core.List.{append_assoc, append-nil}
use mephi_sfu_server_project.Common.{
  length, length-append, ◌≤◌, Bool, true, false, List, [], ◌∷◌, ◌++◌, some, ◌≡◌, refl, sym, ◌∙◌, ap,
  arith, Bool-cases, Option-cases, inl, inr, subst, ◌&&◌, not,
}
use mephi_sfu_server_project.Kafka.{
  SfuEvent, AsyncProducer, Wire, accepts, drop_event, emit, send, send_all, drain, Ready, done,
  event_ready, write_round, cancel, Step, emits, round, cancels, step, run,
}
use mephi_sfu_server_project.Kafka.Accounting.{Marshals, events_of, events_of_cons}

-- From `p` to `q` with the new events `es`: where nothing was dropped, what is sent and what waits is what was,
-- and the new events behind it.
pub record InOrder (es : List SfuEvent) (p q : AsyncProducer) : Type 0 where
  pub writer : q.has_writer ≡ p.has_writer
  pub grows : length p.lost ≤ length q.lost
  pub queued : length q.lost ≡ length p.lost → q.taken ++ q.ch ≡ (p.taken ++ p.ch) ++ es

module _ (wire : Wire) (m : Marshals wire) where
  send_one :
      (event : SfuEvent) (p : AsyncProducer)
      → p.has_writer ≡ true
      → ((send wire event p).has_writer ≡ p.has_writer)
        × ((send wire event p).ch ≡ p.ch)
        × (length p.lost ≤ length (send wire event p).lost)
        × (length (send wire event p).lost ≡ length p.lost
            → (send wire event p).taken ≡ p.taken ++ event ∷ [])
  unfolding send
  send_one event p w = ground (arith, w, m.events event, length-append p.lost (event ∷ []))

  send_all_order :
      (events : List SfuEvent) (p : AsyncProducer)
      → p.has_writer ≡ true
      → ((send_all wire events p).has_writer ≡ p.has_writer)
        × ((send_all wire events p).ch ≡ p.ch)
        × (length p.lost ≤ length (send_all wire events p).lost)
        × (length (send_all wire events p).lost ≡ length p.lost
            → (send_all wire events p).taken ≡ p.taken ++ events)
  unfolding send_all
  send_all_order [] p w = (refl, refl, omega arith, λ e. sym (append-nil p.taken))
  send_all_order (event ∷ rest) p w =
      let first = send_one event p w in
      let later = send_all_order rest (send wire event p) (first.0 ∙ w) in
      (
        later.0 ∙ first.0,
        later.1 ∙ first.1,
        omega (arith, first.2, later.2),
        λ e.
            later.3 (omega (arith, first.2, later.2, e))
            ∙ ap (λ x. x ++ rest) (first.3 (omega (arith, first.2, later.2, e)))
            ∙ append_assoc p.taken (event ∷ []) rest,
      )

  same-InOrder : (p : AsyncProducer) → InOrder [] p p
  same-InOrder p = record {
    writer = refl;
    grows = omega arith;
    queued = λ e. sym (append-nil (p.taken ++ p.ch));
  }

  drain-InOrder : (p : AsyncProducer) → p.has_writer ≡ true → InOrder [] p (drain wire p)
  unfolding drain
  drain-InOrder p w =
      let v = send_all_order p.ch (record p { ch = []; ch_closed = true; stopped = true }) w in
      record {
        writer = v.0;
        grows = v.2;
        queued =
            λ e. ap (λ x. x ++ (drain wire p).ch) (v.3 e) ∙ ap (λ x. (p.taken ++ p.ch) ++ x) v.1;
      }

  receive-InOrder :
      (ch : List SfuEvent) (p : AsyncProducer)
      → p.ch ≡ ch
      → p.has_writer ≡ true
      → p.stopped ≡ false
      → InOrder [] p (write_round wire event_ready p)
  unfolding write_round
  receive-InOrder [] p e w live = simp (live, e, write_round) (same-InOrder p)
  receive-InOrder (event ∷ rest) p e w live =
      let v = send_one event (record p { ch = rest }) w in
      let now : write_round wire event_ready p ≡ send wire event (record p { ch = rest }) =
        simp (live, e, write_round) refl in
      subst (InOrder [] p) (sym now) (record {
        writer = v.0;
        grows = v.2;
        queued = λ o.
            ap (λ x. x ++ (send wire event (record p { ch = rest })).ch) (v.3 o)
            ∙ ap (λ x. (p.taken ++ event ∷ []) ++ x) v.1
            ∙ append_assoc p.taken (event ∷ []) rest
            ∙ ap (λ x. p.taken ++ x) (sym e)
            ∙ sym (append-nil (p.taken ++ p.ch));
      })

  round-InOrder :
      (ready : Ready) (p : AsyncProducer)
      → p.has_writer ≡ true
      → InOrder [] p (write_round wire ready p)
  unfolding write_round
  round-InOrder done p w = elim (Bool-cases (p.cancelled && not p.stopped)) [
    | inl e ↦ rw (e, write_round) (drain-InOrder p w)
    | inr e ↦ rw (e, write_round) (same-InOrder p)
  ]
  round-InOrder event_ready p w = elim (Bool-cases p.stopped) [
    | inl e ↦ simp (e, write_round) (same-InOrder p)
    | inr e ↦ receive-InOrder p.ch p refl w e
  ]

  emit-InOrder :
      (waiting : Bool) (event : SfuEvent) (p q : AsyncProducer)
      → emit wire waiting event p ≡ some q
      → InOrder (event ∷ []) p q
  unfolding emit
  emit-InOrder waiting event p q e = elim (Bool-cases p.ch_closed) [
    | inl c ↦ absurd (ground (arith, m.payloads event, c, e))
    | inr c ↦ elim (Bool-cases (accepts waiting p)) [
      | inl a ↦
          let same : record p { ch = p.ch ++ event ∷ [] } ≡ q =
            ground (arith, m.payloads event, c, a, e) in
          subst (InOrder (event ∷ []) p) same (record {
            writer = refl;
            grows = omega arith;
            queued = λ o. sym (append_assoc p.taken p.ch (event ∷ []));
          })
      | inr a ↦
          let same : drop_event event p ≡ q = ground (arith, m.payloads event, c, a, e) in
          let one_more = length-append p.lost (event ∷ []) in
          subst (InOrder (event ∷ []) p) same (record {
            writer = refl;
            grows = omega (arith, one_more);
            queued = λ o. absurd (omega (arith, o, one_more));
          })
    ]
  ]

  step-InOrder :
      (s : Step) (p q : AsyncProducer)
      → p.has_writer ≡ true
      → step wire s p ≡ some q
      → InOrder (events_of (s ∷ [])) p q
  unfolding step cancel
  step-InOrder (emits waiting event) p q w e = emit-InOrder waiting event p q e
  step-InOrder (round ready) p q w e =
      let same : write_round wire ready p ≡ q = ground (arith, e) in
      subst (InOrder [] p) same (round-InOrder ready p w)
  step-InOrder cancels p q w e =
      let same : cancel p ≡ q = ground (arith, e) in
      let v = same-InOrder p in
      subst (InOrder [] p) same (record { writer = refl; grows = v.grows; queued = v.queued })

  InOrder-after :
      (es fs : List SfuEvent) (p x q : AsyncProducer)
      → InOrder es p x
      → InOrder fs x q
      → InOrder (es ++ fs) p q
  InOrder-after es fs p x q v w = record {
    writer = w.writer ∙ v.writer;
    grows = omega (arith, v.grows, w.grows);
    queued = λ e.
        w.queued (omega (arith, v.grows, w.grows, e))
        ∙ ap (λ y. y ++ fs) (v.queued (omega (arith, v.grows, w.grows, e)))
        ∙ append_assoc (p.taken ++ p.ch) es fs;
  }

  pub run-InOrder :
      (steps : List Step) (p q : AsyncProducer)
      → p.has_writer ≡ true
      → run wire steps p ≡ some q
      → InOrder (events_of steps) p q
  unfolding run
  run-InOrder [] p q w e =
      let same : p ≡ q = ground (arith, e) in subst (InOrder [] p) same (same-InOrder p)
  run-InOrder (s ∷ rest) p q w e = elim (Option-cases (step wire s p)) [
    | inl stuck ↦ absurd (ground (arith, rw (stuck, run) at e))
    | inr (x, ok) ↦
        let first = step-InOrder s p x w ok in
        let later = run-InOrder rest x q (first.writer ∙ w) (rw (ok, run) at e) in
        subst (λ es. InOrder es p q) (sym (events_of_cons s rest))
          (InOrder-after _ _ p x q first later)
  ]
