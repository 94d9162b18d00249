-- ===== src/Server/Placement.antt =====
-- Where a client is sent that asks for a room: `LookupRoomNode` of server.go against `CreateRoom`.
use mephi_sfu_server_project.Common.{String, eq_iff, eq_refl, true, none, some, ◌≡◌, refl, arith}
use mephi_sfu_server_project.Peer.{Pion}
use mephi_sfu_server_project.Cluster.{
  Redis, Reply, found, missing, failed, room_key, register_room, get_node_for_room,
}
use mephi_sfu_server_project.Room as RoomDefs
use mephi_sfu_server_project.Room.{Room, RoomConfig}
use mephi_sfu_server_project.Server.{SfuServer}
use mephi_sfu_server_project.Server.Ops.{
  create_room, join_cluster, make_room, place_room, lookup_room_node, locate, local,
}

-- What Redis promises of `SET` and `GET`: a read of a key gives the value that was last written to it.
pub record Keeps {S : Type 0} (redis : Redis S) : Type 0 where
  pub reads : (s : S) (key v : String) → redis.get (redis.set s key v).0 key ≡ found v

-- This node is in a cluster.
pub record Clustered {S : Type 0} (node : String) (s : SfuServer S) : Type 0 where
  pub enabled : s.config.cluster_enabled ≡ true
  pub routed : s.config.has_room_router ≡ true
  pub is_node : s.config.cluster_node ≡ some node

module _ {S : Type 0} (redis : Redis S) where
  -- The answer of `LookupRoomNode` after the room has been placed.
  place_then_locate :
      (pion : Pion) (node : String) (reply : Reply) (room : Room) (store : S)
      → Keeps redis
      → ((owner : String) → reply ≡ found owner → owner ≡ node)
      → locate redis node
          (get_node_for_room redis room.id (place_room redis pion node reply room store).1)
          (place_room redis pion node reply room store).1
        ≡ local
  unfolding place_room locate get_node_for_room register_room
  place_then_locate pion node (found owner) room store k mine = ground (
    arith,
    (eq_iff owner node).1 (mine owner refl),
    k.reads store (room_key room.id) node,
    eq_refl node,
  )
  place_then_locate pion node missing room store k mine =
      ground (arith, k.reads store (room_key room.id) node, eq_refl node)
  place_then_locate pion node failed room store k mine =
      ground (arith, k.reads store (room_key room.id) node, eq_refl node)

  -- In a cluster whose Redis keeps what it is given: once a node has created a room that no other node owns, it
  -- finds the room to be its own, and sends no client elsewhere.
  pub lookup_room_node-create_room :
      (pion : Pion) (id node : String) (config : RoomConfig) (s : SfuServer S)
      → Keeps redis
      → Clustered node s
      → ((owner : String) → get_node_for_room redis id s.redis ≡ found owner → owner ≡ node)
      → (create_room redis pion id config s).1 ≡ none
      → lookup_room_node redis id (create_room redis pion id config s).0 ≡ local
  unfolding create_room lookup_room_node join_cluster make_room RoomDefs.new_room
      RoomDefs.set_on_close
  lookup_room_node-create_room pion id node config s k c mine ok =
      let room = make_room id config s in
      let placed =
        place_then_locate pion node (get_node_for_room redis id s.redis) room s.redis k mine in
      ground (arith, ok, c.enabled, c.routed, c.is_node, placed)
