-- ===== src/Sender.antt =====
-- internal/sfu/sender.go: the queue of RTP packets between the router and one subscriber. The
-- channel is the list `ch`, oldest first; the writing goroutine is advanced one `select` at a time.
-- What the local track of pion has been given is the log `written`. A packet of `senderPacketPool`
-- is an argument of `write_rtp`, since `sync.Pool` may hand out any earlier packet or a new one.
-- A channel of size 0, which config.go refuses, would need a receiver that waits.
pub mod Delivery
pub mod Accounting
use mephi_sfu_server_project.Common.{
  u64, ℕ, ◌+◌, ◌%◌, ◌^◌, min, String, Bool, true, false, List, [], ◌∷◌, ◌++◌, length, take, drop,
  replicate, ltb, if◌then◌else◌, map,
}

-- buffer.go
abbrev pub max_rtp_packet_size : ℕ
max_rtp_packet_size = 1460

pub record SenderConfig : Type 0 where
  pub write_channel_size : ℕ

abbrev pub default_sender_config : SenderConfig
default_sender_config = record { write_channel_size = 100 }

pub record SenderPacket : Type 0 where
  pub bytes : List ℕ
  pub n : ℕ

-- What the pool makes when it is empty.
abbrev pub new_sender_packet : SenderPacket
new_sender_packet = record { bytes = replicate max_rtp_packet_size 0; n = 0 }

-- The goroutine of `Start`.
pub data Loop : Type 0 where
  idle running ended : Loop

pub record Sender : Type 0 where
  pub id : String
  pub peer_id : String
  pub codec : String
  pub stream_id : String
  pub ch : List SenderPacket
  pub cancelled : Bool
  pub close_once : Bool
  pub loop : Loop
  pub packets_sent : ℕ
  pub bytes_sent : ℕ
  pub packets_dropped : ℕ
  pub written : List (List ℕ)
  pub config : SenderConfig

-- `NewSender`, once pion has made the local track.
unfoldable pub new_sender : String → String → String → String → SenderConfig → Sender
new_sender peer_id codec track_id stream_id config = record {
  id = track_id;
  peer_id = peer_id;
  codec = codec;
  stream_id = stream_id;
  ch = [];
  cancelled = false;
  close_once = false;
  loop = idle;
  packets_sent = 0;
  bytes_sent = 0;
  packets_dropped = 0;
  written = [];
  config = config;
}

unfoldable pub start : Sender → Sender
start s = record s { loop = running }

unfoldable pub stop : Sender → Sender
stop s = if s.close_once then s else record s { close_once = true; cancelled = true }

-- The builtin `copy(dst, src)` overwrites a prefix of `dst`, and returns its length.
unfoldable pub copy {ℓ} : {A : Type ℓ} → List A → List A → List A
copy dst src = take (length dst) src ++ drop (length src) dst

unfoldable pub fill_packet : SenderPacket → List ℕ → ℕ → SenderPacket
unfolding copy
fill_packet pkt buf n = record {
  bytes = copy pkt.bytes (take n buf);
  n = min (length pkt.bytes) (length (take n buf));
}

-- Whether the channel takes one more packet.
abbrev pub has_room : Sender → Bool
has_room s = ltb (length s.ch) s.config.write_channel_size

unfoldable pub write_rtp : SenderPacket → List ℕ → ℕ → Sender → Sender
unfolding fill_packet
write_rtp pkt buf n s =
    if has_room s
    then record s { ch = s.ch ++ fill_packet pkt buf n ∷ [] }
    else record s { packets_dropped = u64 (s.packets_dropped + 1) }

-- `pkt.data[:pkt.n]`
abbrev pub payload : SenderPacket → List ℕ
payload pkt = take pkt.n pkt.bytes

-- Which case of the `select` fires, and what the write to the track answers.
pub data Select : Type 0 where
  done : Select
  receive : Bool → Select

write_packet : Bool → List SenderPacket → Sender → Sender
write_packet ok [] s = s
write_packet true (pkt ∷ rest) s = record s {
  ch = rest;
  packets_sent = u64 (s.packets_sent + 1);
  bytes_sent = u64 (s.bytes_sent + pkt.n);
  written = s.written ++ payload pkt ∷ [];
}
write_packet false (pkt ∷ rest) s = record s { ch = rest; loop = ended }

-- `drainChannel` and the return.
drain_channel : Sender → Sender
drain_channel s = if s.cancelled then record s { ch = []; loop = ended } else s

select_case : Loop → Select → Sender → Sender
unfolding write_packet drain_channel
select_case running done s = drain_channel s
select_case running (receive ok) s = write_packet ok s.ch s
select_case _ _ s = s

-- One round of `writeLoop`; a case that is not ready leaves the sender as it is.
unfoldable pub write_loop_round : Select → Sender → Sender
unfolding select_case
write_loop_round c s = select_case s.loop c s

-- What happens to a started sender: calls of `WriteRTP`, rounds of its goroutine, and `Stop`.
pub data Action : Type 0 where
  write : SenderPacket → List ℕ → ℕ → Action
  round : Select → Action
  halt : Action

unfoldable pub act : Action → Sender → Sender
act (write pkt buf n) s = write_rtp pkt buf n s
act (round c) s = write_loop_round c s
act halt s = stop s

unfoldable pub run : List Action → Sender → Sender
unfolding act
run [] s = s
run (a ∷ rest) s = run rest (act a s)
