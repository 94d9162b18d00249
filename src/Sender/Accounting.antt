-- ===== src/Sender/Accounting.antt =====
-- The bound on the queue, and the counters of `SenderStats` against what was written.
use mephi_sfu_server_project.Common.{
  u64, ℕ, ◌+◌, ◌≤◌, min, List, [], ◌∷◌, ◌++◌, length, take, drop, String, ◌≡◌, refl, arith, All,
  All-append, length-take, length-drop, length-append,
}
use mephi_sfu_server_project.Sender.{
  Sender, SenderConfig, SenderPacket, Select, done, receive, Action, write, round, halt, act, run,
  copy, fill_packet, write_rtp, write_loop_round, payload, stop, new_sender, start,
}

abbrev pub sum_lengths : List (List ℕ) → ℕ
sum_lengths [] = 0
sum_lengths (x ∷ xs) = length x + sum_lengths xs

sum_lengths-snoc :
    (xs : List (List ℕ)) (x : List ℕ) → sum_lengths (xs ++ x ∷ []) ≡ sum_lengths xs + length x
sum_lengths-snoc [] x = omega arith
sum_lengths-snoc (y ∷ xs) x = omega (arith, sum_lengths-snoc xs x)

abbrev pub Sized : SenderPacket → Type 0
Sized pkt = pkt.n ≡ length (payload pkt)

length-copy-le : (dst src : List ℕ) → length dst ≤ length (copy dst src)
unfolding copy
length-copy-le dst src = omega (
  arith,
  length-append (take (length dst) src) (drop (length src) dst),
  length-take (length dst) src,
  length-drop (length src) dst,
)

fill_packet-Sized : (pkt : SenderPacket) (buf : List ℕ) (n : ℕ) → Sized (fill_packet pkt buf n)
unfolding fill_packet
fill_packet-Sized pkt buf n = omega (
  arith,
  length-copy-le pkt.bytes (take n buf),
  length-take (min (length pkt.bytes) (length (take n buf))) (copy pkt.bytes (take n buf)),
)

-- The queue never exceeds the channel, and the counters are, modulo 2^64, the number of packets
-- and of bytes that the track was given.
pub record Inv (s : Sender) : Type 0 where
  pub bounded : length s.ch ≤ s.config.write_channel_size
  pub sized : All Sized s.ch
  pub packets : s.packets_sent ≡ u64 (length s.written)
  pub bytes : s.bytes_sent ≡ u64 (sum_lengths s.written)

write_rtp-Inv :
    (pkt : SenderPacket) (buf : List ℕ) (n : ℕ) (s : Sender) → Inv s → Inv (write_rtp pkt buf n s)
unfolding write_rtp
write_rtp-Inv pkt buf n s v = ground (
  arith,
  length-append s.ch (fill_packet pkt buf n ∷ []),
  All-append Sized s.ch (fill_packet pkt buf n ∷ []) v.sized (fill_packet-Sized pkt buf n, tt),
)

write_loop_round-Inv :
    (c : Select) (q : List SenderPacket) (s : Sender)
    → s.ch ≡ q
    → Inv s
    → Inv (write_loop_round c s)
unfolding write_loop_round
write_loop_round-Inv done q s e v = ground arith
write_loop_round-Inv (receive ok) [] s e v = ground arith
write_loop_round-Inv (receive ok) (pkt ∷ rest) s e v =
    ground
      (arith, length-append s.written (payload pkt ∷ []), sum_lengths-snoc s.written (payload pkt))

act-Inv : (a : Action) (s : Sender) → Inv s → Inv (act a s)
unfolding act stop
act-Inv (write pkt buf n) s v = write_rtp-Inv pkt buf n s v
act-Inv (round c) s v = write_loop_round-Inv c s.ch s refl v
act-Inv halt s v = ground arith

pub run-Inv : (acts : List Action) (s : Sender) → Inv s → Inv (run acts s)
unfolding run
run-Inv [] s v = v
run-Inv (a ∷ rest) s v = run-Inv rest (act a s) (act-Inv a s v)

pub new_sender-Inv :
    (peer_id codec track_id stream_id : String) (config : SenderConfig)
    → Inv (start (new_sender peer_id codec track_id stream_id config))
unfolding new_sender start
new_sender-Inv peer_id codec track_id stream_id config = omega arith

-- Every schedule of writes, rounds of the goroutine and stops of a started sender keeps its queue within the
-- channel, and `packets_sent` and `bytes_sent` equal, modulo 2^64, to the packets and the bytes that the track was
-- given.
pub run-new_sender-Inv :
    (peer_id codec track_id stream_id : String) (config : SenderConfig) (acts : List Action)
    → Inv (run acts (start (new_sender peer_id codec track_id stream_id config)))
run-new_sender-Inv peer_id codec track_id stream_id config acts =
    run-Inv acts _ (new_sender-Inv peer_id codec track_id stream_id config)
