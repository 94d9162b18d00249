-- ===== src/Receiver/Reading.antt =====
-- What the reading goroutine of a receiver hands to the router.
use mephi_sfu_server_project.Common.{
  u64, ℕ, ◌+◌, String, true, false, List, [], ◌∷◌, length, none, some, ◌≡◌, refl, arith, ◌⊎◌, inl,
  inr,
}
use mephi_sfu_server_project.Sender.{running, ended}
use mephi_sfu_server_project.Receiver.{
  Receiver, ReadResult, packet, eof, failed, Forwarded, read_loop_round,
}

-- The goroutine over a sequence of answers: the final receiver and the packets handed on.
unfoldable pub read_all : List ReadResult → Receiver → Receiver × List Forwarded
read_all [] r = (r, [])
read_all (a ∷ rest) r =
    let (r', out) = read_loop_round a r in
    let (r'', outs) = read_all rest r' in (r'', elim out [ none ↦ outs | some f ↦ f ∷ outs ])

-- The packets before the first end or error.
unfoldable pub packets_before_end : List ReadResult → List (List ℕ)
packets_before_end [] = []
packets_before_end (packet buf ∷ rest) = buf ∷ packets_before_end rest
packets_before_end (eof ∷ rest) = []
packets_before_end (failed ∷ rest) = []

pub forwards : String → List (List ℕ) → List Forwarded
forwards t [] = []
forwards t (b ∷ bs) = record { track = t; buf = b; n = length b } ∷ forwards t bs

read_ended :
    (answers : List ReadResult) (r : Receiver) → r.read_loop ≡ ended → read_all answers r ≡ (r, [])
unfolding read_all read_loop_round
read_ended [] r h = refl
read_ended (a ∷ rest) r h = ground (arith, read_ended rest r h)

-- The counters after some packets, modulo 2^64.
unfoldable pub counted : List (List ℕ) → Receiver → ℕ × ℕ
counted [] r = (r.packets_received, r.bytes_received)
counted (b ∷ bs) r = counted bs (record r {
  packets_received = u64 (r.packets_received + 1);
  bytes_received = u64 (r.bytes_received + length b);
})

-- The receiver after one packet.
abbrev after_packet : List ℕ → Receiver → Receiver
after_packet buf r = record r {
  packets_received = u64 (r.packets_received + 1);
  bytes_received = u64 (r.bytes_received + length buf);
}

module _ (r : Receiver) {t : String} (p : r.on_packet ≡ some t) (c : r.cancelled ≡ false)
    (l : r.read_loop ≡ running) where
  round_packet :
      (buf : List ℕ)
      → read_loop_round (packet buf) r
        ≡ (after_packet buf r, some (record { track = t; buf = buf; n = length buf }))
  unfolding read_loop_round
  round_packet buf = ground arith

  round_end :
      (a : ReadResult)
      → (a ≡ eof) ⊎ (a ≡ failed)
      → read_loop_round a r ≡ (record r { read_loop = ended }, none)
  unfolding read_loop_round
  round_end a h = ground arith

-- While the receiver is not cancelled, its goroutine hands to the router, under the track of the
-- callback, exactly the packets that come before the first end or error, in their order, and counts
-- each of them and its bytes once.
pub read_all-forwards :
    (answers : List ReadResult) (r : Receiver) {t : String}
    → r.on_packet ≡ some t
    → r.cancelled ≡ false
    → r.read_loop ≡ running
    → ((read_all answers r).1 ≡ forwards t (packets_before_end answers))
      × (((read_all answers r).0.packets_received, (read_all answers r).0.bytes_received)
          ≡ counted (packets_before_end answers) r)
unfolding read_all forwards packets_before_end counted
read_all-forwards [] r p c l = (refl, refl)
read_all-forwards (packet buf ∷ rest) r p c l =
    let ih = read_all-forwards rest (after_packet buf r) p c l in
    ground (arith, round_packet r p c l buf, ih)
read_all-forwards (eof ∷ rest) r p c l =
    ground (
      arith,
      round_end r p c l eof (inl refl),
      read_ended rest (record r { read_loop = ended }) refl,
    )
read_all-forwards (failed ∷ rest) r p c l = ground (
  arith,
  round_end r p c l failed (inr refl),
  read_ended rest (record r { read_loop = ended }) refl,
)

round_cancelled :
    (a : ReadResult) (r : Receiver)
    → r.cancelled ≡ true
    → ((read_loop_round a r).1 ≡ none) × ((read_loop_round a r).0.cancelled ≡ true)
unfolding read_loop_round
round_cancelled a r c = ground arith

-- A cancelled receiver hands on nothing more, whatever the track answers.
pub read_all_cancelled :
    (answers : List ReadResult) (r : Receiver) → r.cancelled ≡ true → (read_all answers r).1 ≡ []
unfolding read_all
read_all_cancelled [] r c = refl
read_all_cancelled (a ∷ rest) r c =
    let now = round_cancelled a r c in
    rw (now.0, read_all) (read_all_cancelled rest (read_loop_round a r).0 now.1)
