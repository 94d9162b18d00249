-- ===== src/Room/Invariant/Leaving.antt =====
-- The operations by which peers leave a room keep its invariant.
use mephi_sfu_server_project.Common.{
  String, eq_iff, eq_refl, Bool, true, false, List, [], ◌∷◌, Option, some, ◌≡◌, arith, Bool-cases,
  Option-cases, inl, inr, ◌⊎◌,
}
use mephi_sfu_server_project.Map.{Map, lookup, insert, delete}
use mephi_sfu_server_project.Map.Laws.{delete-Distinct, insert-Distinct, lookup-insert}
use mephi_sfu_server_project.Map.Total.{length-delete, length-insert_old}
use mephi_sfu_server_project.Router.{Router}
use mephi_sfu_server_project.Router.Invariant as RI
use mephi_sfu_server_project.Router.Invariant.Whole as Whole
use mephi_sfu_server_project.Peer.{Peer}
use mephi_sfu_server_project.Peer.Ops as PeerOps
use mephi_sfu_server_project.Peer.Ops.{
  ConnectionState, pc_new, pc_connecting, pc_connected, pc_disconnected, pc_failed, pc_closed,
  on_state_change,
}
use mephi_sfu_server_project.Peer.Lifecycle as Lifecycle
use mephi_sfu_server_project.Room.{Room, Event, count_left}
use mephi_sfu_server_project.Room.Ops.{
  close, close_if, forget_peer, on_peer_closed, close_peer, leave, peer_state_changed,
}
use mephi_sfu_server_project.Room.Invariant.{Member, Inv}
use mephi_sfu_server_project.Room.Invariant.Loops.{close_peers-Inv, close_bridges-Inv}
use mephi_sfu_server_project.Room.Invariant.Keep.{insert-Members, delete-Members, lookup-Member}

pub close-Inv : (r : Room) → Inv r → Inv (close r)
unfolding close
close-Inv r v = elim (Bool-cases r.close_once) [
  | inl e ↦ simp (e, close) v
  | inr e ↦
      rw (e, close)
        (record {
          router =
              Whole.close-Inv _
                (close_bridges-Inv _ r.cascade_bridges (close_peers-Inv r.router r.peers v.router));
          distinct = tt;
          members = tt;
          capacity = λ h. omega arith;
          counted = ground (arith, v.counted);
        })
]

close_if-Inv : (b : Bool) (r : Room) → Inv r → Inv (close_if b r)
close_if-Inv true r v = close-Inv r v
close_if-Inv false r v = v

-- A member that has left, whatever happened to the router and to the logs.
left-Inv :
    (id : String) (r : Room) (p : Peer) (router : Router) (log : Option (List Event))
    (gone : List Peer)
    → Inv r
    → lookup id r.peers ≡ some p
    → RI.Inv router
    → Inv (record r {
      router = router;
      peers = delete id r.peers;
      emitted = log;
      metrics = count_left 1 r.metrics;
      departed = gone;
    })
left-Inv id r p router log gone v e w = record {
  router = w;
  distinct = delete-Distinct id r.peers v.distinct;
  members = delete-Members id r.peers v.members;
  capacity = λ h. ground (arith, v.capacity h, length-delete id p r.peers v.distinct e);
  counted = ground (arith, v.counted, length-delete id p r.peers v.distinct e);
}

pub on_peer_closed-Inv : (id : String) (r : Room) → Inv r → Inv (on_peer_closed id r)
unfolding on_peer_closed forget_peer
on_peer_closed-Inv id r v = elim (Option-cases (lookup id r.peers)) [
  | inl e ↦ rw (e, on_peer_closed) v
  | inr (p, e) ↦
      rw (e, on_peer_closed)
        (close_if-Inv _ _ (left-Inv id r p r.router _ (p ∷ r.departed) v e v.router))
]

close_peer-Inv : (p : Peer) (r : Room) → Inv r → Inv (close_peer p r)
unfolding close_peer
close_peer-Inv p r v =
    let c = PeerOps.close r.router p in
    let w : Inv (record r { router = c.0; departed = c.1 ∷ r.departed }) = record {
      router = Lifecycle.close-Inv r.router p v.router;
      distinct = v.distinct;
      members = v.members;
      capacity = v.capacity;
      counted = v.counted;
    } in
    elim (Bool-cases c.2) [
      | inl e ↦ rw (e, close_peer) (on_peer_closed-Inv p.id _ w)
      | inr e ↦ rw (e, close_peer) w
    ]

pub leave-Inv : (id : String) (r : Room) → Inv r → Inv (leave id r)
unfolding leave forget_peer
leave-Inv id r v = elim (Option-cases (lookup id r.peers)) [
  | inl e ↦ rw (e, leave) v
  | inr (p, e) ↦
      rw (e, leave)
        (close_if-Inv _ _ (close_peer-Inv p _ (left-Inv id r p r.router _ r.departed v e v.router)))
]

-- A live member stays one, or it closes and tells the room.
state_cases :
    (c : ConnectionState) (id : String) (r : Router) (p : Peer)
    → Member id p
    → (((on_state_change c r p).2 ≡ false) × Member id (on_state_change c r p).1)
      ⊎ ((on_state_change c r p).2 ≡ true)
unfolding on_state_change
state_cases c id r p m = ground arith

on_state_change-Inv :
    (c : ConnectionState) (r : Router) (p : Peer) → RI.Inv r → RI.Inv (on_state_change c r p).0
unfolding on_state_change
on_state_change-Inv pc_failed r p v = Lifecycle.close-Inv r _ v
on_state_change-Inv pc_closed r p v = Lifecycle.close-Inv r _ v
on_state_change-Inv _ r p v = v

delete-insert : (id : String) (p : Peer) (m : Map Peer) → delete id (insert id p m) ≡ delete id m
unfolding delete insert
delete-insert id p [] = ground (arith, eq_refl id)
delete-insert id p ((j, q) ∷ rest) =
    ground (arith, eq_iff j id, eq_refl id, delete-insert id p rest)

lookup-insert_self : (id : String) (p : Peer) (m : Map Peer) → lookup id (insert id p m) ≡ some p
lookup-insert_self id p m = ground (arith, lookup-insert id id p m, eq_refl id)

module _ (c : ConnectionState) (id : String) (r : Room) (v : Inv r) (p : Peer)
    (e : lookup id r.peers ≡ some p) where
  changed : Room
  changed =
      let s = on_state_change c r.router p in
      record r { router = s.0; peers = insert id s.1 r.peers }

  stays-Inv : Member id (on_state_change c r.router p).1 → Inv changed
  unfolding changed
  stays-Inv m =
      let p' = (on_state_change c r.router p).1 in
      record {
        router = on_state_change-Inv c r.router p v.router;
        distinct = insert-Distinct id p' r.peers v.distinct;
        members = insert-Members id p' r.peers m v.members;
        capacity = λ h. ground (arith, v.capacity h, length-insert_old id p' p r.peers e);
        counted = ground (arith, v.counted, length-insert_old id p' p r.peers e);
      }

  goes-Inv : Inv (on_peer_closed id changed)
  unfolding changed on_peer_closed forget_peer
  goes-Inv =
      let p' = (on_state_change c r.router p).1 in
      rw (lookup-insert_self id p' r.peers, on_peer_closed, delete-insert id p' r.peers)
        (close_if-Inv _ _ (left-Inv id r p _ _ _ v e (on_state_change-Inv c r.router p v.router)))

pub peer_state_changed-Inv :
    (c : ConnectionState) (id : String) (r : Room) → Inv r → Inv (peer_state_changed c id r)
unfolding peer_state_changed changed
peer_state_changed-Inv c id r v = elim (Option-cases (lookup id r.peers)) [
  | inl e ↦ rw (e, peer_state_changed) v
  | inr (p, e) ↦ elim (state_cases c id r.router p (lookup-Member id r.peers p v.members e)) [
    | inl (quiet, m) ↦ rw (e, peer_state_changed, quiet) (stays-Inv c id r v p e m)
    | inr loud ↦ rw (e, peer_state_changed, loud) (goes-Inv c id r v p e)
  ]
]
