-- ===== src/Room/Invariant/Keep.antt =====
-- Each operation of a room keeps its invariant.
use mephi_sfu_server_project.Common.{
  ℕ, String, eq_iff, Bool, false, [], ◌∷◌, none, some, ◌≡◌, refl, arith, Bool-cases, inl, inr,
}
use mephi_sfu_server_project.Map.{Map, lookup, insert, delete, contains, values}
use mephi_sfu_server_project.Map.Laws.{insert-Distinct, contains-lookup}
use mephi_sfu_server_project.Map.Total.{length-insert_new}
use mephi_sfu_server_project.Router.Invariant.Tracks.{new_router-Inv}
use mephi_sfu_server_project.Peer.{Peer, PeerConfig, Pion, new_peer}
use mephi_sfu_server_project.Peer.Ops as PeerOps
use mephi_sfu_server_project.Room.{Room, RoomConfig, new_room}
use mephi_sfu_server_project.Room.Loops.{subscribe_existing}
use mephi_sfu_server_project.Room.Ops.{join, admit, is_full}
use mephi_sfu_server_project.Room.Invariant.{Member, Members, Inv}
use mephi_sfu_server_project.Room.Invariant.Loops.{
  subscribe_existing-Member, subscribe_existing-Inv,
}

pub insert-Members :
    (id : String) (p : Peer) (m : Map Peer) → Member id p → Members m → Members (insert id p m)
unfolding insert
insert-Members id p [] k h = (k, tt)
insert-Members id p ((j, q) ∷ rest) k h =
    ground (arith, eq_iff j id, insert-Members id p rest k h.1)

pub delete-Members : (id : String) (m : Map Peer) → Members m → Members (delete id m)
unfolding delete
delete-Members id [] h = tt
delete-Members id ((j, q) ∷ rest) h = ground (arith, delete-Members id rest h.1)

pub lookup-Member :
    (id : String) (m : Map Peer) (p : Peer) → Members m → lookup id m ≡ some p → Member id p
unfolding lookup
lookup-Member id [] p h e = cc e
lookup-Member id ((j, q) ∷ rest) p h e = ground (arith, eq_iff j id, lookup-Member id rest p h.1)

contains-false : (id : String) (m : Map Peer) → contains id m ≡ false → lookup id m ≡ none
contains-false id m e = ground (arith, contains-lookup id m)

-- A new room has the invariant.
pub new_room-Inv :
    (address : ℕ) (id : String) (config : RoomConfig) (has_metrics has_kafka : Bool)
    → Inv (new_room address id config has_metrics has_kafka)
unfolding new_room
new_room-Inv address id config has_metrics has_kafka =
    let v = new_router-Inv has_metrics in
    record {
      router = record {
        receivers_distinct = v.receivers_distinct;
        senders_distinct = v.senders_distinct;
        named = v.named;
        subscribers = v.subscribers;
        published = v.published;
        counted = v.counted;
        stopped = v.stopped;
      };
      distinct = tt;
      members = tt;
      capacity = λ h. omega arith;
      counted = ground arith;
    }

module _ (pion : Pion) (id : String) (config : PeerConfig) (r : Room) (v : Inv r) where
  new_peer-Member : Member id (PeerOps.set_on_close (new_peer r.admitted id config))
  unfolding new_peer PeerOps.set_on_close
  new_peer-Member = record { named = refl; reports = refl; live = refl }

  admit-Inv : is_full r ≡ false → lookup id r.peers ≡ none → Inv (admit pion id config r)
  unfolding admit
  admit-Inv room_left absent =
      let p = PeerOps.set_on_close (new_peer r.admitted id config) in
      let recvs = values r.router.receivers in
      let p' = (subscribe_existing pion recvs r.router p).1 in
      record {
        router = subscribe_existing-Inv pion recvs r.router p v.router;
        distinct = insert-Distinct id p' r.peers v.distinct;
        members =
            insert-Members id p' r.peers
              (subscribe_existing-Member pion recvs r.router p id new_peer-Member) v.members;
        capacity = λ h. ground (arith, v.capacity h, length-insert_new id p' r.peers absent);
        counted = ground (arith, v.counted, length-insert_new id p' r.peers absent);
      }

  pub join-Inv : Inv (join pion id config r).0
  unfolding join
  join-Inv = elim (Bool-cases (is_full r)) [
    | inl e ↦ rw (e, join) v
    | inr e ↦ elim (Bool-cases (contains id r.peers)) [
      | inl e' ↦ rw (e, join, e') v
      | inr e' ↦ elim (Bool-cases pion.new_peer_connection) [
        | inl e'' ↦ simp (e, e', e'') (admit-Inv e (contains-false id r.peers e'))
        | inr e'' ↦ rw (e, join, e', e'') v
      ]
    ]
  ]
