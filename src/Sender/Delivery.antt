-- ===== src/Sender/Delivery.antt =====
-- The queue is a FIFO that loses nothing it has accepted, whatever the pooled packets held before.
use mathlib.Core.List.{append_assoc, append-nil, map-append}
use mephi_sfu_server_project.Common.{
  ℕ, zero, suc, ◌≤◌, min, true, false, List, [], ◌∷◌, ◌++◌, length, take, drop, map, if◌then◌else◌,
  ◌≡◌, refl, ap, ◌∙◌, sym, arith, All, take_append_self, length-take, Bool-cases, inl, inr,
}
use mephi_sfu_server_project.Sender.{
  Sender, SenderPacket, running, Select, done, receive, Action, write, round, halt, act, run, copy,
  fill_packet, write_rtp, write_loop_round, payload, has_room, max_rtp_packet_size, stop,
}

-- The packets that wait and those already written, in order.
abbrev pub stream : Sender → List (List ℕ)
stream s = s.written ++ map payload s.ch

take_min : {A : Type 0} (n : ℕ) (xs ys : List A) → length xs ≤ n → take n xs ≡ xs
take_min zero [] ys h = refl
take_min zero (x ∷ xs) ys h = absurd (omega arith)
take_min (suc n) [] ys h = refl
take_min (suc n) (x ∷ xs) ys h = ap (◌∷◌ x) (take_min n xs ys (omega arith))

take-copy : (dst src : List ℕ) → length src ≤ length dst → take (length src) (copy dst src) ≡ src
unfolding copy
take-copy dst src h =
    rw (take_min (length dst) src [] h) (take_append_self src (drop (length src) dst))

-- For a pooled packet of full size and an `n` within it, the payload of the filled packet is the first `n`
-- bytes of the buffer: what the pooled packet held before never reaches a subscriber.
pub payload-fill_packet :
    (pkt : SenderPacket) (buf : List ℕ) (n : ℕ)
    → length pkt.bytes ≡ max_rtp_packet_size
    → n ≤ max_rtp_packet_size
    → payload (fill_packet pkt buf n) ≡ take n buf
unfolding fill_packet
payload-fill_packet pkt buf n full h =
    let small : length (take n buf) ≤ length pkt.bytes = omega (arith, length-take n buf) in
    let len : min (length pkt.bytes) (length (take n buf)) ≡ length (take n buf) = omega arith in
    rw len (take-copy pkt.bytes (take n buf) small)

-- What the calls of `WriteRTP` in a schedule put into the channel: a packet that comes when the
-- channel is full is dropped.
unfoldable pub accepted : List Action → Sender → List (List ℕ)
accepted [] s = []
accepted (write pkt buf n ∷ rest) s =
    let later = accepted rest (act (write pkt buf n) s) in
    if has_room s then take n buf ∷ later else later
accepted (round c ∷ rest) s = accepted rest (act (round c) s)
accepted (halt ∷ rest) s = accepted rest (act halt s)

-- A pooled packet holds a whole buffer, and a read fits into it.
abbrev pub Fits : Action → Type 0
Fits (write pkt buf n) = (length pkt.bytes ≡ max_rtp_packet_size) × (n ≤ max_rtp_packet_size)
Fits (round c) = Unit
Fits halt = Unit

was_running : (a : Action) (s : Sender) → (act a s).loop ≡ running → s.loop ≡ running
unfolding act write_rtp write_loop_round stop
was_running (write pkt buf n) s h = ground arith
was_running (round c) s h = ground arith
was_running halt s h = ground arith

run-was_running : (acts : List Action) (s : Sender) → (run acts s).loop ≡ running → s.loop ≡ running
unfolding run
run-was_running [] s h = h
run-was_running (a ∷ rest) s h = was_running a s (run-was_running rest (act a s) h)

stream-write :
    (pkt : SenderPacket) (buf : List ℕ) (n : ℕ) (s : Sender)
    → Fits (write pkt buf n)
    → has_room s ≡ true
    → stream (write_rtp pkt buf n s) ≡ stream s ++ take n buf ∷ []
unfolding write_rtp
stream-write pkt buf n s f room =
    rw
      (
        room,
        map-append payload s.ch (fill_packet pkt buf n ∷ []),
        payload-fill_packet pkt buf n f.0 f.1,
      )
      (sym (append_assoc s.written (map payload s.ch) (take n buf ∷ [])))

stream-write_full :
    (pkt : SenderPacket) (buf : List ℕ) (n : ℕ) (s : Sender)
    → has_room s ≡ false
    → stream (write_rtp pkt buf n s) ≡ stream s
unfolding write_rtp
stream-write_full pkt buf n s full = rw full

stream_receive :
    (q : List SenderPacket) (s : Sender)
    → s.ch ≡ q
    → s.loop ≡ running
    → (write_loop_round (receive true) s).loop ≡ running
    → stream (write_loop_round (receive true) s) ≡ stream s
unfolding write_loop_round
stream_receive [] s e r h = ground arith
stream_receive (pkt ∷ rest) s e r h =
    rw (r, e, write_loop_round) (append_assoc s.written (payload pkt ∷ []) (map payload rest))

stream_fail :
    (q : List SenderPacket) (s : Sender)
    → s.ch ≡ q
    → s.loop ≡ running
    → (write_loop_round (receive false) s).loop ≡ running
    → stream (write_loop_round (receive false) s) ≡ stream s
unfolding write_loop_round
stream_fail [] s e r h = ground arith
stream_fail (pkt ∷ rest) s e r h = ground arith

stream_done :
    (s : Sender)
    → s.loop ≡ running
    → (write_loop_round done s).loop ≡ running
    → stream (write_loop_round done s) ≡ stream s
unfolding write_loop_round
stream_done s r h = ground arith

stream-round :
    (c : Select) (s : Sender)
    → s.loop ≡ running
    → (write_loop_round c s).loop ≡ running
    → stream (write_loop_round c s) ≡ stream s
stream-round done s r h = stream_done s r h
stream-round (receive true) s r h = stream_receive s.ch s refl r h
stream-round (receive false) s r h = stream_fail s.ch s refl r h

stream-stop : (s : Sender) → stream (stop s) ≡ stream s
unfolding stop
stream-stop s = ground arith

-- Where the pooled packets have full size and each read fits into one: while the goroutine of a sender
-- runs, what it has written, followed by what still waits, is what it held before followed by exactly
-- the accepted packets, in the order of their arrival: none is lost, doubled or reordered, under every
-- interleaving of writes and rounds of the goroutine.
pub run-stream :
    (acts : List Action) (s : Sender)
    → All Fits acts
    → (run acts s).loop ≡ running
    → stream (run acts s) ≡ stream s ++ accepted acts s
unfolding run accepted act
run-stream [] s f h = sym (append-nil (stream s))
run-stream (write pkt buf n ∷ rest) s f h =
    let later = run-stream rest (write_rtp pkt buf n s) f.1 h in
    elim (Bool-cases (has_room s)) [
      | inl room ↦ rw room (
          later
          ∙ ap (λ t. t ++ accepted rest (write_rtp pkt buf n s)) (stream-write pkt buf n s f.0 room)
          ∙ append_assoc (stream s) (take n buf ∷ []) _)
      | inr full ↦ rw full (
          later
          ∙ ap (λ t. t ++ accepted rest (write_rtp pkt buf n s))
              (stream-write_full pkt buf n s full))
    ]
run-stream (round c ∷ rest) s f h =
    let still = run-was_running rest (write_loop_round c s) h in
    run-stream rest (write_loop_round c s) f.1 h
    ∙ ap (λ t. t ++ accepted rest (write_loop_round c s))
        (stream-round c s (was_running (round c) s still) still)
run-stream (halt ∷ rest) s f h =
    run-stream rest (stop s) f.1 h ∙ ap (λ t. t ++ accepted rest (stop s)) (stream-stop s)
