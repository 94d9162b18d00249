-- ===== src/Main/Loops.antt =====
-- cmd/sfud/main.go: the goroutines of a node in a cluster. `decode` is `json.Unmarshal` of a message of Redis.
use mephi_sfu_server_project.Common.{
  inr, inl, Option-cases, String, List, [], ◌∷◌, Option, none, some,
}
use mephi_sfu_server_project.Map.{values}
use mephi_sfu_server_project.Peer.{Pion}
use mephi_sfu_server_project.Cascade.{ClusterMessage}
use mephi_sfu_server_project.Cluster.{Redis, keep_room_alive}
use mephi_sfu_server_project.Cluster.Node.{Beat, tick}
use mephi_sfu_server_project.Room.{Room}
use mephi_sfu_server_project.Room.Invariant.History.{messages}
use mephi_sfu_server_project.Server.{SfuServer, stats}
use mephi_sfu_server_project.Server.Ops.{handle_cluster_message}
use mephi_sfu_server_project.Server.Invariant.{on_room-Inv, Inv}

-- The counts that a tick of the heartbeat asks the server for.
unfoldable pub count_beat : {S : Type 0} → SfuServer S → Beat
unfolding stats
count_beat s = tick (stats s).total_peers (stats s).rooms_count

module _ {S : Type 0} (redis : Redis S) where
  -- A round of the goroutine that keeps the rooms of this node in the registry; errors are ignored.
  unfoldable pub keep_all : List Room → S → S
  keep_all [] store = store
  keep_all (room ∷ rest) store = keep_all rest (keep_room_alive redis room.id store).0

  unfoldable pub keep_rooms_alive : SfuServer S → SfuServer S
  unfolding keep_all
  keep_rooms_alive s = record s { redis = keep_all (values s.rooms) s.redis }

  -- A round of the goroutine that reads the channel of this node: a text that does not decode is skipped.
  unfoldable pub receive :
      Pion → (String → Option ClusterMessage) → String → String → SfuServer S → SfuServer S
  receive pion decode node text s = elim (decode text) [
    | none ↦ s
    | some msg ↦ handle_cluster_message redis pion node msg s
  ]

  -- A text on the channel of the node keeps the invariant of the server, whatever it is.
  pub receive-Inv :
      (pion : Pion) (decode : String → Option ClusterMessage) (node text : String) (s : SfuServer S)
      → Inv s
      → Inv (receive pion decode node text s)
  unfolding receive handle_cluster_message
  receive-Inv pion decode node text s v = elim (Option-cases (decode text)) [
    | inl e ↦ rw (e, receive) v
    | inr (msg, e) ↦ rw (e, receive) (on_room-Inv redis (messages pion node msg) msg.room_id s v)
  ]
