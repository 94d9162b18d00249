-- ===== src/Cluster/Heartbeats.antt =====
-- What the other nodes read of the heartbeat of node.go.
use mephi_sfu_server_project.Common.{
  String, true, false, List, [], ◌∷◌, Option, some, ◌≡◌, refl, ◌∙◌, ap,
}
use mathlib.Core.List.{Memᴰ}
use mephi_sfu_server_project.Cluster.{NodeStats, Redis, found, missing}
use mephi_sfu_server_project.Cluster.Node.{node_key, Heartbeat, Beat, done, tick, beat, beat_all}

-- What Redis promises: a key that was set without an error has its value and is listed, and a key that was deleted
-- without an error is missing.
pub record Registry {S : Type 0} (redis : Redis S) : Type 0 where
  pub keeps :
      (s : S) (key v : String)
      → (redis.set s key v).1 ≡ true
      → redis.get (redis.set s key v).0 key ≡ found v
  pub lists :
      (s : S) (node v : String) (keys : List String)
      → (redis.set s (node_key node) v).1 ≡ true
      → redis.node_keys (redis.set s (node_key node) v).0 ≡ some keys
      → Memᴰ (node_key node) keys
  pub removes :
      (s : S) (key : String)
      → (redis.del s key).1 ≡ true
      → redis.get (redis.del s key).0 key ≡ missing

module _ {S : Type 0} (redis : Redis S) (encode : NodeStats → Option String) where
  stopped_stays :
      (beats : List Beat) (h : Heartbeat S) → h.running ≡ false → beat_all redis encode beats h ≡ h
  unfolding beat_all beat
  stopped_stays [] h off = refl
  stopped_stays (done ∷ rest) h off =
      let same : beat redis encode done h ≡ h = simp (off, beat) refl in
      ap (beat_all redis encode rest) same ∙ stopped_stays rest h off
  stopped_stays (tick peers rooms ∷ rest) h off =
      let same : beat redis encode (tick peers rooms) h ≡ h = simp (off, beat) refl in
      ap (beat_all redis encode rest) same ∙ stopped_stays rest h off

  -- Once a heartbeat that runs is done, where Redis deletes its key, the key is missing, whatever comes later: a tick
  -- never registers the node again.
  pub beat_all-done :
      (h : Heartbeat S) (beats : List Beat)
      → Registry redis
      → h.running ≡ true
      → (redis.del h.store (node_key h.node.node_id)).1 ≡ true
      → redis.get (beat_all redis encode (done ∷ beats) h).store (node_key h.node.node_id) ≡ missing
  unfolding beat_all beat
  beat_all-done h beats r on ok =
      let gone = (redis.del h.store (node_key h.node.node_id)).0 in
      let stops : beat redis encode done h ≡ record h { running = false; store = gone } =
        simp (on, beat) refl in
      ap (λ x. redis.get (beat_all redis encode beats x).store (node_key h.node.node_id)) stops
      ∙ ap (λ x. redis.get x.store (node_key h.node.node_id))
          (stopped_stays beats (record h { running = false; store = gone }) refl)
      ∙ r.removes h.store (node_key h.node.node_id) ok
