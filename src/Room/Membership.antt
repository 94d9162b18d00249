-- ===== src/Room/Membership.antt =====
-- Who is in a room after `Join`, `Leave` and `Close`, and when the room itself closes.
use mephi_sfu_server_project.Common.{
  suc, ◌<◌, String, str_eq, eq_refl, true, false, [], ◌∷◌, none, some, length, ◌≡◌, ◌≢◌, refl, ◌∙◌,
  ap, arith, Bool-cases, Option-cases, inl, inr, if◌then◌else◌, ◌==◌, ◌↔◌,
}
use mephi_sfu_server_project.Map.{lookup, delete, values}
use mephi_sfu_server_project.Map.Laws.{lookup-insert, lookup-delete, contains-lookup}
use mephi_sfu_server_project.Map.Total.{length-delete, length-insert_new}
use mephi_sfu_server_project.Router.Ops as RouterOps
use mephi_sfu_server_project.Router.Subscriptions.{sender_for, sender_for-unsubscribe_all}
use mephi_sfu_server_project.Peer.{Peer, PeerConfig, Pion, new_peer, closed}
use mephi_sfu_server_project.Peer.Ops as PeerOps
use mephi_sfu_server_project.Room.{Room, peer_joined, emit}
use mephi_sfu_server_project.Room.Loops.{subscribe_existing}
use mephi_sfu_server_project.Room.Ops.{
  join, admit, is_full, close, close_if, leave, forget_peer, close_peer, on_peer_closed, room_full,
}
use mephi_sfu_server_project.Room.Invariant.{Inv}
use mephi_sfu_server_project.Room.Invariant.Keep.{lookup-Member}

-- A `Join` that fails leaves the room as it was. It fails exactly where the room is full, the name is
-- taken, or pion makes no connection, and a full room is reported before a taken name.
pub join_fails :
    (pion : Pion) (id : String) (config : PeerConfig) (r : Room)
    → ((join pion id config r).1 ≢ none → (join pion id config r).0 ≡ r)
      × (((join pion id config r).1 ≡ none)
          ↔ ((is_full r ≡ false) × (lookup id r.peers ≡ none) × (pion.new_peer_connection ≡ true)))
      × (((join pion id config r).1 ≡ some room_full) ↔ (is_full r ≡ true))
unfolding join
join_fails pion id config r = ground (arith, contains-lookup id r.peers)

admitted : Pion → String → PeerConfig → Room → Peer
admitted pion id config r =
    (subscribe_existing pion (values r.router.receivers) r.router
      (PeerOps.set_on_close (new_peer r.admitted id config))).1

-- After a `Join` that succeeds the room has one member more, the new one, who was not there before;
-- the others are the peers they were; and where there is a producer, the event tells it.
pub join_succeeds :
    (pion : Pion) (id : String) (config : PeerConfig) (r : Room)
    → (join pion id config r).1 ≡ none
    → (lookup id r.peers ≡ none)
      × ((j : String)
          → str_eq id j ≡ false
          → lookup j (join pion id config r).0.peers ≡ lookup j r.peers)
      × (lookup id (join pion id config r).0.peers ≢ none)
      × (length (join pion id config r).0.peers ≡ suc (length r.peers))
      × ((join pion id config r).0.emitted ≡ emit (peer_joined r.id id) r.emitted)
unfolding join admit admitted
join_succeeds pion id config r e =
    let was = (join_fails pion id config r).1.0 e in
    let new = admitted pion id config r in
    (
      was.1,
      λ j ne. ground (arith, was, ne, contains-lookup id r.peers, lookup-insert id j new r.peers),
      λ gone. ground (
        arith,
        gone,
        was,
        contains-lookup id r.peers,
        lookup-insert id id new r.peers,
        eq_refl id,
      ),
      ground (arith, was, contains-lookup id r.peers, length-insert_new id new r.peers was.1),
      ground (arith, was, contains-lookup id r.peers),
    )

-- The peer that `Leave` closes.
left_peer : Peer → Peer
left_peer p = record p { close_once = true; state = closed; rtp_senders = []; cancelled = true }

close_peer_gone :
    (p : Peer) (r : Room)
    → p.close_once ≡ false
    → lookup p.id r.peers ≡ none
    → close_peer p r ≡ record r {
      router = RouterOps.unsubscribe_all p.id r.router;
      departed = left_peer p ∷ r.departed;
    }
unfolding close_peer PeerOps.close on_peer_closed left_peer
close_peer_gone p r live gone = elim (Bool-cases p.on_close) [
  | inl e ↦ simp (live, e, gone, close_peer, PeerOps.close, on_peer_closed) refl
  | inr e ↦ simp (live, e, close_peer, PeerOps.close) refl
]

-- The room once a member has left and its peer is closed.
after_leave : String → Peer → Room → Room
unfolding forget_peer left_peer
after_leave id p r = record (forget_peer id r) {
  router = RouterOps.unsubscribe_all id r.router;
  departed = left_peer p ∷ r.departed;
}

leave-step :
    (id : String) (r : Room) (p : Peer)
    → Inv r
    → lookup id r.peers ≡ some p
    → leave id r ≡ close_if (length (delete id r.peers) == 0) (after_leave id p r)
unfolding leave forget_peer after_leave
leave-step id r p v e =
    let m = lookup-Member id r.peers p v.members e in
    let gone : lookup p.id (delete id r.peers) ≡ none =
      ground (arith, lookup-delete id p.id r.peers, m.named, eq_refl id) in
    rw (e, leave)
      (ap (close_if (length (delete id r.peers) == 0)) (
        close_peer_gone p (forget_peer id r) m.live gone
        ∙ ap (λ x. record (after_leave id p r) { router = RouterOps.unsubscribe_all x r.router })
            m.named))

-- Whoever had the name is not a member after `Leave`.
pub leave_gone : (id : String) (r : Room) → Inv r → lookup id (leave id r).peers ≡ none
unfolding leave after_leave forget_peer close lookup
leave_gone id r v = elim (Option-cases (lookup id r.peers)) [
  | inl e ↦ rw (e, leave) e
  | inr (p, e) ↦
      ap (λ x. lookup id x.peers) (leave-step id r p v e)
      ∙ ground (arith, lookup-delete id id r.peers, eq_refl id)
]

-- `Leave` of a well-formed room while others stay: the named member is gone, with all its senders on
-- all tracks; every other member, and every sender of another peer, is as it was.
pub leave_others :
    (id : String) (r : Room) (p : Peer)
    → Inv r
    → lookup id r.peers ≡ some p
    → 1 < length r.peers
    → ((j : String)
        → lookup j (leave id r).peers ≡ (if str_eq id j then none else lookup j r.peers))
      × ((j q : String)
          → sender_for j q (leave id r).router
            ≡ (if str_eq id q then none else sender_for j q r.router))
      × ((leave id r).close_once ≡ r.close_once)
unfolding after_leave forget_peer
leave_others id r p v e n =
    let size = length-delete id p r.peers v.distinct e in
    let stays : (length (delete id r.peers) == 0) ≡ false = ground (arith, size) in
    let now : leave id r ≡ after_leave id p r =
      leave-step id r p v e ∙ ap (λ b. close_if b (after_leave id p r)) stays in
    (
      λ j. ap (λ x. lookup j x.peers) now ∙ lookup-delete id j r.peers,
      λ j q. ap (λ x. sender_for j q x.router) now ∙ sender_for-unsubscribe_all id j q r.router,
      ap (λ x. x.close_once) now,
    )

-- `Leave` of the last member of a well-formed room that is not closed closes it: no members, tracks,
-- senders or bridges are left, its context is cancelled, and its owner is told once more if it asked
-- to be.
pub leave_last :
    (id : String) (r : Room) (p : Peer)
    → Inv r
    → lookup id r.peers ≡ some p
    → length r.peers ≡ 1
    → r.close_once ≡ false
    → ((leave id r).peers ≡ [])
      × ((leave id r).router.receivers ≡ [])
      × ((leave id r).router.senders ≡ [])
      × ((leave id r).cascade_bridges ≡ [])
      × ((leave id r).cancelled ≡ true)
      × ((leave id r).close_notices ≡ (if r.on_close then suc r.close_notices else r.close_notices))
unfolding after_leave forget_peer close RouterOps.close
leave_last id r p v e n live =
    let size = length-delete id p r.peers v.distinct e in
    let last : (length (delete id r.peers) == 0) ≡ true = ground (arith, size) in
    let now : leave id r ≡ close (after_leave id p r) =
      leave-step id r p v e ∙ ap (λ b. close_if b (after_leave id p r)) last in
    rw (now, live) (refl, refl, refl, refl, refl, refl)

-- A second `Close` changes nothing, and no `Close` leaves a member.
pub close_twice :
    (r : Room) → (close (close r) ≡ close r) × (r.close_once ≡ false → (close r).peers ≡ [])
unfolding close
close_twice r = ground arith
