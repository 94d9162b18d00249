-- ===== src/Server/Ops.antt =====
-- The operations of server.go.
use mephi_sfu_server_project.Common.{
  suc, String, str_eq, Bool, true, ◌&&◌, List, [], ◌∷◌, ◌++◌, map, Option, none, some, length,
  if◌then◌else◌, ltb, leb,
}
use mephi_sfu_server_project.Map.{lookup, insert, delete, contains, values}
use mephi_sfu_server_project.Peer.{Pion}
use mephi_sfu_server_project.Cascade.{new_cascade_bridge, ClusterMessage}
use mephi_sfu_server_project.Cluster.{
  Reply, found, missing, failed, Redis, NodeStats, register_room, unregister_room,
  get_node_for_room, get_all_nodes,
}
use mephi_sfu_server_project.Room
use mephi_sfu_server_project.Room.{Room, RoomConfig, emit, room_created, room_closed}
use mephi_sfu_server_project.Room.Ops as RoomOps
use mephi_sfu_server_project.Room.Invariant.History.{Call, step, messages, closes}
use mephi_sfu_server_project.Server.{SfuServer, count_created, count_closed}

pub data ServerError : Type 0 where
  server_closed max_room_limit room_already_exists room_not_found : ServerError

abbrev pub at_limit : {S : Type 0} → SfuServer S → Bool
at_limit s = ltb 0 s.config.max_rooms && leb s.config.max_rooms (length s.rooms)

-- A room of another node: the bridge to it, which starts its negotiation.
unfoldable pub guest_room : Pion → String → String → Room → Room
unfolding new_cascade_bridge RoomOps.add_cascade_bridge
guest_room pion node owner room =
    if pion.new_peer_connection
    then RoomOps.add_cascade_bridge owner
        (record (new_cascade_bridge room.id node owner true) { spawned = 1 }) room
    else room

-- The room that `CreateRoom` makes, before the cluster is asked.
unfoldable pub make_room : {S : Type 0} → String → RoomConfig → SfuServer S → Room
unfolding Room.new_room Room.set_on_close
make_room room_id config s =
    Room.set_on_close (Room.new_room s.made room_id config s.config.has_metrics s.config.has_kafka)

-- Where `LookupRoomNode` sends a client: the address, and whether the room is local.
pub data Place : Type 0 where
  local lookup_failed : Place
  remote : String → Place

-- A node that is not among the live ones has expired, and the room counts as local.
unfoldable pub find_node : String → List NodeStats → Place
find_node node_id [] = local
find_node node_id (stats ∷ rest) =
    if str_eq stats.node_id node_id then remote stats.addr else find_node node_id rest

module _ {S : Type 0} (redis : Redis S) where
  -- Who owns a new room: the node that Redis names, or else this one.
  unfoldable pub place_room : Pion → String → Reply → Room → S → Room × S
  unfolding guest_room register_room
  place_room pion node (found owner) room store =
      if str_eq owner node
      then (room, (register_room redis room.id node store).0)
      else (guest_room pion node owner room, store)
  place_room pion node missing room store = (room, (register_room redis room.id node store).0)
  place_room pion node failed room store = (room, (register_room redis room.id node store).0)

  unfoldable pub join_cluster : Pion → Room → SfuServer S → Room × S
  unfolding place_room get_node_for_room
  join_cluster pion room s =
      if s.config.cluster_enabled && s.config.has_room_router
      then elim s.config.cluster_node [
        | none ↦ (room, s.redis)
        | some node ↦ place_room pion node (get_node_for_room redis room.id s.redis) room s.redis
      ]
      else (room, s.redis)

  -- `CreateRoom`; the room is returned as the entry of the registry.
  unfoldable pub create_room :
      Pion → String → RoomConfig → SfuServer S → SfuServer S × Option ServerError
  unfolding make_room join_cluster
  create_room pion room_id config s =
      if s.closed
      then (s, some server_closed)
      else if at_limit s
      then (s, some max_room_limit)
      else if contains room_id s.rooms
      then (s, some room_already_exists)
      else (let (room, store) = join_cluster pion (make_room room_id config s) s in
          (
            record s {
              rooms = insert room_id room s.rooms;
              redis = store;
              made = suc s.made;
              metrics = count_created s.metrics;
              emitted = emit (room_created room_id) s.emitted;
            },
            none,
          ))

  unfoldable pub get_or_create_room :
      Pion → String → RoomConfig → SfuServer S → SfuServer S × Option ServerError
  unfolding create_room
  get_or_create_room pion room_id config s =
      if contains room_id s.rooms then (s, none) else create_room pion room_id config s

  -- The callback of a room that closed.
  unfoldable pub on_room_closed : String → SfuServer S → SfuServer S
  unfolding unregister_room
  on_room_closed room_id s = elim (lookup room_id s.rooms) [
    | none ↦ s
    | some room ↦ record s {
      rooms = delete room_id s.rooms;
      redis =
          if s.config.cluster_enabled && s.config.has_room_router
          then (unregister_room redis room_id s.redis).0
          else s.redis;
      metrics = count_closed s.metrics;
      emitted = emit (room_closed room_id) s.emitted;
      ended = room ∷ s.ended;
    }
  ]

  -- A call on a room of the registry, with the callback where the room closes by it.
  unfoldable pub on_room : Call → String → SfuServer S → SfuServer S
  unfolding on_room_closed step
  on_room c room_id s = elim (lookup room_id s.rooms) [
    | none ↦ s
    | some room ↦
        let room' = step c room in
        let s' = record s { rooms = insert room_id room' s.rooms } in
        if ltb room.close_notices room'.close_notices then on_room_closed room'.id s' else s'
  ]

  unfoldable pub close_room : String → SfuServer S → SfuServer S × Option ServerError
  unfolding on_room
  close_room room_id s =
      if contains room_id s.rooms
      then (on_room closes room_id s, none)
      else (s, some room_not_found)

  unfoldable pub locate : String → Reply → S → Place
  unfolding find_node get_all_nodes
  locate node missing store = local
  locate node failed store = lookup_failed
  locate node (found owner) store =
      if str_eq owner node then local else elim (get_all_nodes redis store) [
        | none ↦ lookup_failed
        | some nodes ↦ find_node owner nodes
      ]

  unfoldable pub lookup_room_node : String → SfuServer S → Place
  unfolding locate get_node_for_room
  lookup_room_node room_id s =
      if s.config.cluster_enabled && s.config.has_room_router
      then elim s.config.cluster_node [
        | none ↦ local
        | some node ↦ locate node (get_node_for_room redis room_id s.redis) s.redis
      ]
      else local

  -- `HandleClusterMessage`; the node is there, since only a cluster sends such messages.
  unfoldable pub handle_cluster_message : Pion → String → ClusterMessage → SfuServer S → SfuServer S
  unfolding on_room
  handle_cluster_message pion node msg s = on_room (messages pion node msg) msg.room_id s

-- `Close`. The registry is empty before the rooms close, so their callbacks return at once.
unfoldable pub close : {S : Type 0} → SfuServer S → SfuServer S
unfolding RoomOps.close
close s = if s.close_once then s else record s {
  closed = true;
  close_once = true;
  rooms = [];
  cancelled = true;
  ended = map RoomOps.close (values s.rooms) ++ s.ended;
}
