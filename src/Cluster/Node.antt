-- ===== src/Cluster/Node.antt =====
-- internal/cluster/node.go: the heartbeat of a node. `encode` is `json.Marshal`; the measurements of the process are
-- left out, and the rooms and peers are counted by the caller.
use Prim.Native.String.{◌++◌ as str_append}
use mephi_sfu_server_project.Common.{
  ℕ, String, Bool, true, false, List, [], ◌∷◌, Option, none, some, if◌then◌else◌,
}
use mephi_sfu_server_project.Cluster.{NodeStats, Redis}

pub record ClusterNode : Type 0 where
  pub node_id : String
  pub addr : String
  pub stats : NodeStats

-- `NewClusterNode`
unfoldable pub new_cluster_node : String → String → ClusterNode
new_cluster_node node_id addr = record {
  node_id = node_id;
  addr = addr;
  stats = record { node_id = node_id; addr = addr; active_peers = 0; active_rooms = 0 };
}

-- `updateStats`
unfoldable pub update_stats : ℕ → ℕ → ClusterNode → ClusterNode
update_stats active_peers active_rooms cn = record cn {
  stats = record cn.stats { active_peers = active_peers; active_rooms = active_rooms };
}

abbrev pub node_key : String → String
node_key node_id = str_append "sfu:nodes:" node_id

-- The goroutine of a heartbeat.
pub record Heartbeat (S : Type 0) : Type 0 where
  pub node : ClusterNode
  pub running : Bool
  pub store : S

-- `StartHeartbeat`
unfoldable pub start_heartbeat : {S : Type 0} → ClusterNode → S → Heartbeat S
start_heartbeat cn s = record { node = cn; running = true; store = s }

-- Which case of the `select` is taken; a tick has the counts of the peers and of the rooms.
pub data Beat : Type 0 where
  done : Beat
  tick : ℕ → ℕ → Beat

module _ {S : Type 0} (redis : Redis S) (encode : NodeStats → Option String) where
  abbrev publish : Option String → ClusterNode → S → S
  publish none cn s = s
  publish (some data_) cn s = (redis.set s (node_key cn.node_id) data_).0

  -- A round of the loop. The replies of `SET` and `DEL` are only logged.
  unfoldable pub beat : Beat → Heartbeat S → Heartbeat S
  unfolding update_stats
  beat done h =
      if h.running
      then record h { running = false; store = (redis.del h.store (node_key h.node.node_id)).0 }
      else h
  beat (tick peers rooms) h =
      if h.running
      then record h {
        node = update_stats peers rooms h.node;
        store =
            publish (encode (update_stats peers rooms h.node).stats)
              (update_stats peers rooms h.node) h.store;
      }
      else h

  unfoldable pub beat_all : List Beat → Heartbeat S → Heartbeat S
  unfolding beat
  beat_all [] h = h
  beat_all (b ∷ rest) h = beat_all rest (beat b h)
