-- ===== src/Kafka.antt =====
-- internal/kafka/producer.go: the producer of events that does not block its callers. The channel and the
-- write loop are explicit; `none` is Go's panic of a send on a closed channel. `taken` logs the events that were
-- sent, oldest first: those that Kafka took, or all, where there is no writer; `lost` logs those that were dropped.
pub mod Accounting
pub mod Order
pub mod Consumer
use mephi_sfu_server_project.Common.{
  u64, ℕ, ◌+◌, String, Bool, true, false, ◌&&◌, ◌||◌, not, List, [], ◌∷◌, ◌++◌, Option, none, some,
  length, if◌then◌else◌, ltb, ◌==◌,
}

-- The type, the room and the peer of an event; the node and the time are left out.
pub record SfuEvent : Type 0 where
  pub type : String
  pub room_id : String
  pub peer_id : String

pub record AsyncProducer : Type 0 where
  pub has_writer : Bool
  pub buffer_size : ℕ
  pub ch : List SfuEvent
  pub ch_closed : Bool
  pub cancelled : Bool
  pub stopped : Bool
  pub sent : ℕ
  pub dropped : ℕ
  pub taken : List SfuEvent
  pub lost : List SfuEvent

-- `NewAsyncProducer`; a writer is there where Kafka is enabled.
unfoldable pub new_async_producer : Bool → ℕ → AsyncProducer
new_async_producer enabled buffer_size = record {
  has_writer = enabled;
  buffer_size = buffer_size;
  ch = [];
  ch_closed = false;
  cancelled = false;
  stopped = false;
  sent = 0;
  dropped = 0;
  taken = [];
  lost = [];
}

-- What the libraries answer: `json.Marshal` of a payload and of an event, and `WriteMessages`.
pub record Wire : Type 0 where
  pub payload_ok : SfuEvent → Bool
  pub marshal : SfuEvent → Bool
  pub write : SfuEvent → Bool

-- `sentCount.Add(1)`
abbrev pub take_event : SfuEvent → AsyncProducer → AsyncProducer
take_event event p = record p { sent = u64 (p.sent + 1); taken = p.taken ++ event ∷ [] }

-- `droppedCount.Add(1)`
abbrev pub drop_event : SfuEvent → AsyncProducer → AsyncProducer
drop_event event p = record p { dropped = u64 (p.dropped + 1); lost = p.lost ++ event ∷ [] }

-- Whether a send on the channel goes through: there is room, or the write loop waits for an event.
abbrev pub accepts : Bool → AsyncProducer → Bool
accepts waiting p = ltb (length p.ch) p.buffer_size || (waiting && (length p.ch == 0))

-- `Emit`
unfoldable pub emit : Wire → Bool → SfuEvent → AsyncProducer → Option AsyncProducer
emit wire waiting event p =
    if not (wire.payload_ok event)
    then some p
    else if p.ch_closed
    then none
    else if accepts waiting p
    then some (record p { ch = p.ch ++ event ∷ [] })
    else some (drop_event event p)

-- `send`; an event that does not marshal is lost without being counted.
unfoldable pub send : Wire → SfuEvent → AsyncProducer → AsyncProducer
send wire event p =
    if not p.has_writer
    then take_event event p
    else if not (wire.marshal event)
    then p
    else if wire.write event
    then take_event event p
    else drop_event event p

-- `for event := range ap.ch`
unfoldable pub send_all : Wire → List SfuEvent → AsyncProducer → AsyncProducer
unfolding send
send_all wire [] p = p
send_all wire (event ∷ rest) p = send_all wire rest (send wire event p)

-- `drain`, after which the loop returns.
unfoldable pub drain : Wire → AsyncProducer → AsyncProducer
unfolding send_all
drain wire p = send_all wire p.ch (record p { ch = []; ch_closed = true; stopped = true })

-- Which case of the `select` in `writeLoop` is taken.
pub data Ready : Type 0 where
  done event_ready : Ready

-- One round of `writeLoop`; a case that is not ready leaves the loop waiting.
unfoldable pub write_round : Wire → Ready → AsyncProducer → AsyncProducer
unfolding drain send
write_round wire done p = if p.cancelled && not p.stopped then drain wire p else p
write_round wire event_ready p =
    if p.stopped
    then p
    else elim p.ch [ [] ↦ p | event ∷ rest ↦ send wire event (record p { ch = rest }) ]

-- `ap.cancel()` in `Close`, which then waits for the loop.
unfoldable pub cancel : AsyncProducer → AsyncProducer
cancel p = record p { cancelled = true }

pub data Step : Type 0 where
  emits : Bool → SfuEvent → Step
  round : Ready → Step
  cancels : Step

unfoldable pub step : Wire → Step → AsyncProducer → Option AsyncProducer
unfolding emit write_round cancel
step wire (emits waiting event) p = emit wire waiting event p
step wire (round ready) p = some (write_round wire ready p)
step wire cancels p = some (cancel p)

unfoldable pub run : Wire → List Step → AsyncProducer → Option AsyncProducer
unfolding step
run wire [] p = some p
run wire (s ∷ rest) p = elim (step wire s p) [ none ↦ none | some q ↦ run wire rest q ]
