-- ===== src/Tests/Servers.antt =====
-- The theorems on the server, the configuration, the producer of events and the decimal text.
use mephi_sfu_server_project.Common.{
  Bool, eq_refl, ℕ, ◌-◌, ◌^◌, String, str_eq, true, false, List, [], ◌∷◌, none, some, ◌≡◌, ◌≢◌, ◌↔◌,
  refl, arith, if◌then◌else◌, negsuc,
}
use mephi_sfu_server_project.Map.{delete, lookup, insert, contains}
use mephi_sfu_server_project.Cluster.{Redis, found, get_node_for_room}
use mephi_sfu_server_project.Cluster.Node.{Heartbeat, start_heartbeat, new_cluster_node}
use mephi_sfu_server_project.Cluster.Heartbeats.{Registry}
use mephi_sfu_server_project.Room.{Room, new_room}
use mephi_sfu_server_project.Room.Invariant.History as History
use mephi_sfu_server_project.Server.{SfuServer, new_sfu_server}
use mephi_sfu_server_project.Server.Ops.{
  lookup_room_node, local, create_room, get_or_create_room, on_room, at_limit, server_closed,
  max_room_limit, room_already_exists,
}
use mephi_sfu_server_project.Server.Invariant as ServerInvariant
use mephi_sfu_server_project.Server.Registry.{
  creates, calls, serve_all, serve_all-new_sfu_server-Inv, create_room_fails,
  get_or_create_room_gets, on_room_lem,
}
use mephi_sfu_server_project.Server.Placement.{Keeps, Clustered, lookup_room_node-create_room}
use mephi_sfu_server_project.Config.{default_config, validate}
use mephi_sfu_server_project.Config.Env.{Environment, not_there, load}
use mephi_sfu_server_project.Config.Validity.{IsValid, validate-IsValid, load-IsValid}
use mephi_sfu_server_project.Kafka as KafkaDefs
use mephi_sfu_server_project.Kafka.{
  AsyncProducer, SfuEvent, Wire, new_async_producer, emit, drain, emits, round, event_ready,
}
use mephi_sfu_server_project.Kafka.Accounting.{
  Accounts, events_of, Marshals, run-accounted, emit-drain,
}
use mephi_sfu_server_project.Kafka.Consumer.{Read, message, failed}
use mephi_sfu_server_project.Signal.{itoa}
use mephi_sfu_server_project.Signal.Decimal.{read, itoa_lem}
use mephi_sfu_server_project.Tests.Data.{redis, server_config, pion_ok, room_config, the}

abbrev fresh_server : SfuServer (List (String × String))
fresh_server = new_sfu_server server_config []

abbrev demo_server : SfuServer (List (String × String))
demo_server = serve_all redis (creates pion_ok "demo" room_config ∷ []) fresh_server

demo_server-Inv : ServerInvariant.Inv demo_server
demo_server-Inv =
    serve_all-new_sfu_server-Inv redis server_config [] (creates pion_ok "demo" room_config ∷ [])

serve_all-new_sfu_server-Inv_example : ServerInvariant.Inv (
    serve_all redis
      (creates pion_ok "demo" room_config ∷ calls History.closes "demo" ∷ [])
      fresh_server)
serve_all-new_sfu_server-Inv_example =
    serve_all-new_sfu_server-Inv redis server_config []
      (creates pion_ok "demo" room_config ∷ calls History.closes "demo" ∷ [])

create_room_fails_example :
    ((create_room redis pion_ok "demo" room_config demo_server).1 ≢ none
      → (create_room redis pion_ok "demo" room_config demo_server).0 ≡ demo_server)
    × (((create_room redis pion_ok "demo" room_config demo_server).1 ≡ some server_closed)
        ↔ (demo_server.closed ≡ true))
    × (((create_room redis pion_ok "demo" room_config demo_server).1 ≡ some max_room_limit)
        ↔ ((demo_server.closed ≡ false) × (at_limit demo_server ≡ true)))
    × (((create_room redis pion_ok "demo" room_config demo_server).1 ≡ some room_already_exists) ↔ (
        (demo_server.closed ≡ false)
        × (at_limit demo_server ≡ false)
        × (lookup "demo" demo_server.rooms ≢ none)))
create_room_fails_example = create_room_fails redis pion_ok "demo" room_config demo_server

demo_up : demo_server.closed ≡ false
unfolding serve_all new_sfu_server contains
demo_up = refl

demo_below : at_limit demo_server ≡ false
unfolding serve_all new_sfu_server contains insert
demo_below = refl

get_or_create_room_gets_example :
    ((get_or_create_room redis pion_ok "other" room_config demo_server).1 ≡ none)
    × (lookup "other" (get_or_create_room redis pion_ok "other" room_config demo_server).0.rooms
        ≢ none)
    × (lookup "other" demo_server.rooms ≢ none
        → (get_or_create_room redis pion_ok "other" room_config demo_server).0 ≡ demo_server)
    × ((j : String)
        → str_eq "other" j ≡ false
        → lookup j (get_or_create_room redis pion_ok "other" room_config demo_server).0.rooms
          ≡ lookup j demo_server.rooms)
get_or_create_room_gets_example =
    get_or_create_room_gets redis pion_ok "other" room_config demo_server demo_up demo_below

abbrev no_room : Room
no_room = new_room 0 "none" room_config false false

abbrev demo_room : Room
demo_room = the no_room (lookup "demo" demo_server.rooms)

demo_there : lookup "demo" demo_server.rooms ≡ some demo_room
unfolding serve_all lookup new_sfu_server contains insert
demo_there = refl

on_room_lem_example : lookup "demo" (on_room redis History.closes "demo" demo_server).rooms ≡ (
    if (History.step History.closes demo_room).close_once
    then none
    else some (History.step History.closes demo_room))
on_room_lem_example =
    on_room_lem redis History.closes "demo" demo_room demo_server demo_server-Inv demo_there

abbrev env : Environment
env = record { getenv = λ name. ""; atoi = λ v. none; split = λ v. [] }

validate-IsValid_example : (validate default_config ≡ none) ↔ IsValid default_config
validate-IsValid_example = validate-IsValid default_config

loads : load env (λ text cfg. some cfg) not_there ≡ (some default_config, none)
unfolding load validate
loads = refl

load-IsValid_example : IsValid default_config
load-IsValid_example = load-IsValid env (λ text cfg. some cfg) not_there default_config loads

abbrev event : SfuEvent
event = record { type = "peer_joined"; room_id = "demo"; peer_id = "bob" }

abbrev wire : Wire
wire = record { payload_ok = λ e. true; marshal = λ e. true; write = λ e. true }

wire-Marshals : Marshals wire
wire-Marshals = record { payloads = λ e. refl; events = λ e. refl }

abbrev steps : List KafkaDefs.Step
steps = emits false event ∷ emits false event ∷ round event_ready ∷ []

abbrev producer : AsyncProducer
producer = new_async_producer true 1

abbrev afterwards : AsyncProducer
afterwards = the producer (KafkaDefs.run wire steps producer)

no_panic : KafkaDefs.run wire steps producer ≡ some afterwards
unfolding KafkaDefs.run new_async_producer
no_panic = refl

run-accounted_example : Accounts (events_of steps) afterwards
run-accounted_example = run-accounted wire wire-Marshals true 1 steps afterwards no_panic

abbrev in_turn : List KafkaDefs.Step
in_turn =
    emits false event ∷ round event_ready ∷ emits false (record event { peer_id = "alice" }) ∷ []

abbrev one_written : AsyncProducer
one_written = the producer (KafkaDefs.run wire in_turn producer)

-- A codec that keeps the peer alone.
abbrev joined : String → SfuEvent
joined peer_id = record event { peer_id = peer_id }

-- What Kafka took is read twice, after a failure.
abbrev twice : List Read
twice = failed ∷ message "bob" ∷ message "bob" ∷ []

abbrev is_bob : SfuEvent → Bool
is_bob e = str_eq e.peer_id "bob"

emit-drain_example : emit wire false event (drain wire producer) ≡ none
emit-drain_example = emit-drain wire false event producer refl

itoa_lem_example :
    (negsuc 41 ≢ negsuc (2 ^ 63 - 1)
      → (text : List ℕ) × (itoa (negsuc 41) ≡ some text) × (read text ≡ negsuc 41))
    × (negsuc 41 ≡ negsuc (2 ^ 63 - 1) → itoa (negsuc 41) ≡ some (45 ∷ []))
itoa_lem_example = itoa_lem (negsuc 41) (omega arith)

redis-Keeps : Keeps redis
unfolding lookup
redis-Keeps = record { reads = λ s key v. ground (arith, eq_refl key) }

fresh-Clustered : Clustered "node-1" fresh_server
unfolding new_sfu_server
fresh-Clustered = record { enabled = refl; routed = refl; is_node = refl }

no_owner :
    (owner : String)
    → get_node_for_room redis "demo" fresh_server.redis ≡ found owner
    → owner ≡ "node-1"
unfolding get_node_for_room new_sfu_server lookup
no_owner owner e = absurd (ground (arith, e))

demo_created : (create_room redis pion_ok "demo" room_config fresh_server).1 ≡ none
unfolding create_room new_sfu_server contains
demo_created = refl

lookup_room_node-create_room_example :
    lookup_room_node redis "demo" (create_room redis pion_ok "demo" room_config fresh_server).0
    ≡ local
lookup_room_node-create_room_example =
    lookup_room_node-create_room redis pion_ok "demo" "node-1" room_config fresh_server redis-Keeps
      fresh-Clustered no_owner demo_created

keys_of : List (String × String) → List String
keys_of [] = []
keys_of ((key, v) ∷ rest) = key ∷ keys_of rest

-- A Redis that lists what was set, and reads every text as one node.
abbrev listing : Redis (List (String × String))
listing = record redis {
  del = λ s key. (delete key s, true);
  node_keys = λ s. some (keys_of s);
  decode = λ text.
      some (record {
        node_id = "node-1";
        addr = "127.0.0.1:8080";
        active_peers = 3;
        active_rooms = 1;
      });
}

abbrev heartbeat : Heartbeat (List (String × String))
heartbeat = start_heartbeat (new_cluster_node "node-1" "127.0.0.1:8080") []
