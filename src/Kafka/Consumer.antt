-- ===== src/Kafka/Consumer.antt =====
-- internal/kafka/consumer.go: the reader of events. `handled` logs the calls of the handler, oldest first; `decode` is
-- `json.Unmarshal` of a message, and a message is its text.
use mephi_sfu_server_project.Common.{
  count, ◌≤◌, String, Bool, true, false, List, [], ◌∷◌, ◌++◌, Option, none, some, if◌then◌else◌,
  ◌≡◌,
}
use mephi_sfu_server_project.Kafka.{SfuEvent}

pub record Consumer : Type 0 where
  pub has_reader : Bool
  pub has_handler : Bool
  pub cancelled : Bool
  pub running : Bool
  pub handled : List SfuEvent

-- `NewConsumer`
unfoldable pub new_consumer : Bool → Bool → Consumer
new_consumer enabled has_handler = record {
  has_reader = enabled;
  has_handler = has_handler;
  cancelled = false;
  running = false;
  handled = [];
}

-- `Start`
unfoldable pub start : Consumer → Consumer
start c = if c.has_reader then record c { running = true } else c

-- `c.cancel()` in `Close`, which then waits for the loop.
unfoldable pub cancel : Consumer → Consumer
cancel c = record c { cancelled = true }

-- What `ReadMessage` gives.
pub data Read : Type 0 where
  message : String → Read
  failed : Read

abbrev hand : Option SfuEvent → Consumer → Consumer
hand none c = c
hand (some event) c = if c.has_handler then record c { handled = c.handled ++ event ∷ [] } else c

-- A round of `readLoop`.
unfoldable pub read_round : (String → Option SfuEvent) → Read → Consumer → Consumer
read_round decode (message text) c = if c.running then hand (decode text) c else c
read_round decode failed c =
    if c.running then (if c.cancelled then record c { running = false } else c) else c

unfoldable pub read_all : (String → Option SfuEvent) → List Read → Consumer → Consumer
unfolding read_round
read_all decode [] c = c
read_all decode (r ∷ rest) c = read_all decode rest (read_round decode r c)

-- The texts of the messages among what was read.
abbrev pub texts : List Read → List String
texts [] = []
texts (message text ∷ rest) = text ∷ texts rest
texts (failed ∷ rest) = texts rest

-- Whether a text is read as an event of which `g` holds.
abbrev pub reads_as : (String → Option SfuEvent) → (SfuEvent → Bool) → String → Bool
reads_as decode g text = elim (decode text) [ none ↦ false | some event ↦ g event ]

-- What Kafka promises of texts that it took, in whatever order and from whatever partition it hands them out: each is
-- read at least as often as it was written, and no other is read.
pub record Delivers (written : List String) (reads : List Read) : Type 0 where
  pub at_least_once : (h : String → Bool) → count h written ≤ count h (texts reads)
  pub nothing_else : (h : String → Bool) → count h written ≡ 0 → count h (texts reads) ≡ 0

-- A consumer whose loop runs, for a handler, and that nobody closed.
record IsListening (c : Consumer) : Type 0 where
  running : c.running ≡ true
  handler : c.has_handler ≡ true
  not_closed : c.cancelled ≡ false
