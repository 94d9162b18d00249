-- ===== src/Lib.antt =====
-- A model of the SFU server: a media server that forwards the RTP packets of each participant of a
-- conference to the others, written in Go over the WebRTC library pion.
--
-- The parts and how they interact. A server (internal/sfu/server.go) keeps a registry of rooms. A room
-- (internal/sfu/room.go) has one router and the peers that are in it. A peer (internal/sfu/peer.go) is one
-- client with its WebRTC connection. The router (internal/sfu/router.go) has a receiver for each published
-- track (internal/sfu/receiver.go) and, for each track, a sender for each subscriber (internal/sfu/sender.go).
-- The goroutine of a receiver hands each packet to the router, which writes it into the queue of each sender
-- of the track; the goroutine of a sender writes it to the client. A new track makes the router call back the
-- room, which subscribes the other peers. A bridge (internal/sfu/cascade.go) is a virtual peer that carries the
-- tracks of a room to another node of the cluster. The registry of Redis tells which node owns a room
-- (internal/cluster). Rooms and the server report events to a producer (internal/kafka/producer.go),
-- and a consumer (internal/kafka/consumer.go) may read them elsewhere. A client
-- connects over a WebSocket: the signal server (internal/signal/websocket.go) counts the connection and runs a session
-- (internal/signal/handler.go), which joins a room, passes the answers of the client to its peer, and takes the peer
-- out at its end. A TURN server (internal/turn) takes the credentials that the signal server hands out. The entry
-- point (cmd/sfud) builds them all from the configuration. A load generator (internal/loadtest) plays clients.
--
-- Which file models which part.
--   Common, Map: shared names, the Boolean tests, lists, Go's int, Go's maps as association lists.
--   Sender: SenderConfig, NewSender, Start, Stop, WriteRTP, writeLoop, drainChannel.
--     Sender/Delivery and Sender/Accounting have what the queue does and counts.
--   Receiver: NewReceiver, Start, Stop, SetOnPacket, readLoop, pliLoop; Receiver/Reading has the loop.
--   Router, Router/Ops: AddReceiver, RemoveReceiver, Subscribe, Unsubscribe, UnsubscribeAll, forward, Close, Stats.
--     Router/Invariant, Router/Subscriptions and Router/Forwarding have its theorems, and Router/Refinement its
--     abstract view.
--   Peer, Peer/Ops: SubscribeToTrack, UnsubscribeFromTrack, HandleAnswer, Close, the callbacks, and negotiate.
--     Peer/Negotiation, Peer/Lifecycle and Peer/Serving have its theorems.
--   Cascade: AddTrack, HandleOffer, Close, negotiate of a bridge, and the messages of internal/cluster/messages.go.
--   Room, Room/Loops, Room/Ops: Join, Leave, Close, the callbacks, the bridges, HandleClusterMessage.
--     Room/Invariant, Room/Membership, Room/Delivery and Room/Publishing have its theorems.
--   Cluster: RegisterRoom, UnregisterRoom, KeepRoomAlive, GetNodeForRoom and GetAllNodes over Redis. Cluster/Node:
--     the heartbeat of internal/cluster/node.go; Cluster/Heartbeats has its theorems.
--   Server, Server/Ops: CreateRoom, GetOrCreateRoom, CloseRoom, onRoomClosed, LookupRoomNode, Close, Stats.
--     Server/Invariant, Server/Registry and Server/Placement have its theorems.
--   Config: internal/config/config.go, with applyEnv and Load in Config/Env and validate in Config.
--   Kafka: internal/kafka/producer.go; Kafka/Consumer is internal/kafka/consumer.go, and Kafka/Accounting and
--     Kafka/Order have the theorems.
--   Signal: itoa of internal/signal/websocket.go; Signal/Decimal reads its text back.
--   Signal/Message: internal/signal/message.go. Signal/Session: Session, NewSession, sendMessage, sendError,
--     forwardNegotiation and writeLoop. Signal/Session/Handlers: dispatch, handleJoin, handleAnswer, handleCandidate,
--     handleLeave, close and readLoop. Signal/Session/Invariant, Signal/Session/Keeping and Signal/Session/Outcomes
--     have the theorems.
--   Signal/Node: handleWebSocket on one node, with the sessions; Signal/Node/Invariant has its invariant.
--   Signal/IceServers: handleICEServers, and the TURN configuration that main builds.
--   Turn: internal/turn/server.go; Turn/Auth has its credentials and Turn/Lifecycle its starting and closing.
--   Main: the configurations that cmd/sfud/main.go builds; Main/Ice compares its ICE servers with /ice-servers,
--     and Main/Loops has its goroutines over Redis.
--   Loadtest: internal/loadtest/client.go; Loadtest/Accounting, Loadtest/Redirects and
--     Loadtest/Termination have its theorems.
--   Loadtest/Runner, Loadtest/Report: internal/loadtest/runner.go; Loadtest/Balance, Loadtest/Latency,
--     Loadtest/Sorting and Loadtest/Totals have the theorems. Loadtest/Command: the addresses of cmd/loadtest/main.go.
--   Tests: the theorems at concrete inputs.
--
-- How state and operations correspond. A struct is a record, and a method is a function from the record to the
-- record; one that reaches into the router takes the router and returns it. A goroutine is advanced one round of
-- its loop at a time, so every interleaving is a list of steps, and no fuel is needed. A method that holds its lock
-- is one step; negotiate of a peer, which lets its lock go twice, is three. The loops of a room over its
-- peers run outside its lock: here such a loop, and the callbacks that it runs, are one step.
-- A room stays in the registry as a value, and a session points to it and to its peer by name and address; an address
-- tells a room or a peer from a later one of the same name. A pointer to a room that has left the registry has no
-- effect on the server. The steps of handlers, sessions and goroutines of a node interleave freely; a message is
-- handled in one step, but for the look of GetOrCreateRoom, after which others may come. A channel is a list
-- with a bound. An atomic uint64 counter wraps at 2^64. The packets of a sync.Pool are arguments, since the pool may
-- hand out any of them.
--
-- What is a parameter. Pion is the record of what its calls answer during one operation; the identity of its
-- objects is a number. Redis, the Kafka writer, JSON, the hash of credentials, YAML,
-- the environment, number parsing and string splitting are records of functions. A
-- theorem that needs an answer says so in a hypothesis.
--
-- Logs that the source does not have and the theorems use: the senders and receivers that were stopped, the peers
-- that left, the rooms that left the registry, the events and messages that were emitted, and the calls of onClose.
-- The producer of Kafka logs the events that were sent and those that were dropped, beside its uint64 counters.
-- A gauge of Prometheus is kept as what was counted up and what was counted down.
--
-- What is not modelled: the registration of metrics, the measurements of a node, the buffer pool, the
-- routes and the shutdown of the HTTP server, the printing of the load generator, its error rate (a float64) and its
-- media samples, the flags of cmd/loadtest, times to live in Redis, and of cmd/sfud the
-- signals and the order of the shutdown: they are input and output, or calls of libraries. A log line has no effect here.
-- That a context ends when the one it was made from ends is left out too: the end of each is an input of its own.
pub mod Common
pub mod Map
pub mod Sender
pub mod Receiver
pub mod Router
pub mod Peer
pub mod Cascade
pub mod Room
pub mod Cluster
pub mod Server
pub mod Config
pub mod Signal
pub mod Kafka
pub mod Turn
pub mod Loadtest
pub mod Main
pub mod Tests
