-- ===== src/Cluster.antt =====
-- internal/cluster/routing.go and node.go: which node has a room. Redis is a parameter: the commands
-- that the code calls, over a store of any type. The heartbeat of a node
-- is in Cluster/Node.
pub mod Node
pub mod Heartbeats
use Prim.Native.String.{◌++◌ as str_append}
use mephi_sfu_server_project.Common.{ℕ, String, Bool, List, [], ◌∷◌, Option, none, some}

-- The reply to `GET`; `missing` is `redis.Nil`.
pub data Reply : Type 0 where
  found : String → Reply
  missing failed : Reply

pub record NodeStats : Type 0 where
  pub node_id : String
  pub addr : String
  pub active_peers : ℕ
  pub active_rooms : ℕ

-- `set`, `del` and `expire` tell whether they went well; `decode` is `json.Unmarshal`.
pub record Redis (S : Type 0) : Type 0 where
  pub get : S → String → Reply
  pub set : S → String → String → S × Bool
  pub del : S → String → S × Bool
  pub expire : S → String → S × Bool
  pub node_keys : S → Option (List String)
  pub decode : String → Option NodeStats

abbrev pub room_key : String → String
room_key room_id = str_append "sfu:rooms:" room_id

module _ {S : Type 0} (redis : Redis S) where
  unfoldable pub register_room : String → String → S → S × Bool
  register_room room_id node_id s = redis.set s (room_key room_id) node_id

  unfoldable pub unregister_room : String → S → S × Bool
  unregister_room room_id s = redis.del s (room_key room_id)

  unfoldable pub get_node_for_room : String → S → Reply
  get_node_for_room room_id s = redis.get s (room_key room_id)

  -- `KeepRoomAlive`
  unfoldable pub keep_room_alive : String → S → S × Bool
  keep_room_alive room_id s = redis.expire s (room_key room_id)

  abbrev pub node_of : Reply → Option NodeStats
  node_of (found data_) = redis.decode data_
  node_of missing = none
  node_of failed = none

  unfoldable pub read_nodes : List String → S → List NodeStats
  read_nodes [] s = []
  read_nodes (key ∷ rest) s =
      let others = read_nodes rest s in
      elim (node_of (redis.get s key)) [ none ↦ others | some stats ↦ stats ∷ others ]

  -- `GetAllNodes`: a key that has gone, or does not decode, is left out.
  unfoldable pub get_all_nodes : S → Option (List NodeStats)
  unfolding read_nodes
  get_all_nodes s = elim (redis.node_keys s) [ none ↦ none | some keys ↦ some (read_nodes keys s) ]
