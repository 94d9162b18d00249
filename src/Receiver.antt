-- ===== src/Receiver.antt =====
-- internal/sfu/receiver.go: one published track. The reading goroutine is advanced a round at a
-- time, with what `track.Read` of pion answers as an argument; the callback that the router installs
-- is the track under which it forwards. Key-frame requests (PLI) are counted, since the packet that
-- goes out through pion has no effect on the state.
pub mod Reading
use mephi_sfu_server_project.Common.{
  u64, ℕ, suc, ◌+◌, ◌*◌, String, Bool, true, false, List, Option, none, some, length, if◌then◌else◌,
}
use mephi_sfu_server_project.Sender.{Loop, idle, running, ended}

-- `webrtc.RTPCodecType`
pub data Kind : Type 0 where
  audio video unknown : Kind

abbrev pub kind_string : Kind → String
kind_string audio = "audio"
kind_string video = "video"
kind_string unknown = "unknown"

-- A duration in nanoseconds.
abbrev pub second : ℕ
second = 1_000_000_000

pub record ReceiverConfig : Type 0 where
  pub pli_interval : ℕ

abbrev pub default_receiver_config : ReceiverConfig
default_receiver_config = record { pli_interval = 2 * second }

pub record Receiver : Type 0 where
  pub track_id : String
  pub stream_id : String
  pub track_kind : Kind
  pub owner_peer_id : String
  pub codec : String
  pub on_packet : Option String
  pub cancelled : Bool
  pub close_once : Bool
  pub read_loop : Loop
  pub pli_loop : Loop
  pub packets_received : ℕ
  pub bytes_received : ℕ
  pub key_frame_requests : ℕ
  pub config : ReceiverConfig

-- What pion tells of an incoming track.
pub record TrackRemote : Type 0 where
  pub id : String
  pub stream : String
  pub kind : Kind
  pub mime : String

unfoldable pub new_receiver : TrackRemote → String → ReceiverConfig → Receiver
new_receiver track owner_peer_id config = record {
  track_id = track.id;
  stream_id = track.stream;
  track_kind = track.kind;
  owner_peer_id = owner_peer_id;
  codec = track.mime;
  on_packet = none;
  cancelled = false;
  close_once = false;
  read_loop = idle;
  pli_loop = idle;
  packets_received = 0;
  bytes_received = 0;
  key_frame_requests = 0;
  config = config;
}

-- `pliLoop` returns at once for a track that is no video.
pli_start : Kind → Loop
pli_start video = running
pli_start _ = ended

unfoldable pub start : Receiver → Receiver
unfolding pli_start
start r = record r { read_loop = running; pli_loop = pli_start r.track_kind }

unfoldable pub stop : Receiver → Receiver
stop r = if r.close_once then r else record r { close_once = true; cancelled = true }

unfoldable pub set_on_packet : String → Receiver → Receiver
set_on_packet track_id r = record r { on_packet = some track_id }

unfoldable pub request_key_frame : Receiver → Receiver
request_key_frame r = record r { key_frame_requests = suc r.key_frame_requests }

-- What `track.Read` answers: the bytes read into the buffer, the end of the track, or an error.
pub data ReadResult : Type 0 where
  packet : List ℕ → ReadResult
  eof failed : ReadResult

-- A packet for the router: the track, the buffer and the number of bytes.
pub record Forwarded : Type 0 where
  pub track : String
  pub buf : List ℕ
  pub n : ℕ

abbrev call_back : Option String → List ℕ → Option Forwarded
call_back none buf = none
call_back (some t) buf = some (record { track = t; buf = buf; n = length buf })

read_case : ReadResult → Receiver → Receiver × Option Forwarded
read_case (packet buf) r = (
  record r {
    packets_received = u64 (r.packets_received + 1);
    bytes_received = u64 (r.bytes_received + length buf);
  },
  call_back r.on_packet buf,
)
read_case eof r = (record r { read_loop = ended }, none)
read_case failed r = (record r { read_loop = ended }, none)

read_running : Loop → ReadResult → Receiver → Receiver × Option Forwarded
unfolding read_case
read_running running answer r =
    if r.cancelled then (record r { read_loop = ended }, none) else read_case answer r
read_running _ answer r = (r, none)

-- One round of `readLoop`.
unfoldable pub read_loop_round : ReadResult → Receiver → Receiver × Option Forwarded
unfolding read_running
read_loop_round answer r = read_running r.read_loop answer r

-- Which case of the `select` of `pliLoop` fires.
pub data Tick : Type 0 where
  cancel tick : Tick

pli_running : Loop → Tick → Receiver → Receiver
unfolding request_key_frame
pli_running running cancel r = if r.cancelled then record r { pli_loop = ended } else r
pli_running running tick r = request_key_frame r
pli_running _ _ r = r

unfoldable pub pli_loop_round : Tick → Receiver → Receiver
unfolding pli_running
pli_loop_round c r = pli_running r.pli_loop c r
