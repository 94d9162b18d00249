-- ===== src/Peer/Negotiation.antt =====
-- The goroutines that run `negotiate` of one peer, interleaved at the sections between which the lock
-- of the peer is free.
use mephi_sfu_server_project.Common.{
  suc, Bool, true, false, List, ◌∷◌, ◌++◌, length, if◌then◌else◌, ◌≡◌, ◌⊎◌, arith, length-append,
}
use mephi_sfu_server_project.Router.{Router}
use mephi_sfu_server_project.Peer.{
  Peer, Pion, Begun, stops, goes, is_dead, begin_negotiation, offer_negotiation,
}
use mephi_sfu_server_project.Peer.Ops.{handle_answer, on_state_change, ConnectionState, close}

-- `rounds` are the goroutines past the first section, each with whether it found a handler.
pub record System : Type 0 where
  pub peer : Peer
  pub rounds : List Bool

after_begin : List Bool → Peer × Begun → System
after_begin rounds (p, stops) = record { peer = p; rounds = rounds }
after_begin rounds (p, goes h) = record { peer = p; rounds = h ∷ rounds }

-- A goroutine calls `negotiate`.
pub enter : System → System
unfolding after_begin
enter s = after_begin s.rounds (begin_negotiation s.peer)

-- Some goroutine calls `negotiate`, some goroutine in the middle section ends, an answer of the client
-- comes, the state of the connection changes, or the peer is closed.
pub data Step : System → System → Type 0 where
  enters : (s : System) → Step s (enter s)
  leaves :
      (pion : Pion) (p : Peer) (before after : List Bool) (h : Bool)
      → Step
          (record { peer = p; rounds = before ++ h ∷ after })
          (record { peer = offer_negotiation pion h p; rounds = before ++ after })
  answers : (pion : Pion) (s : System) → Step s (record s { peer = (handle_answer pion s.peer).0 })
  changes :
      (c : ConnectionState) (r : Router) (s : System)
      → Step s (record s { peer = (on_state_change c r s.peer).1 })
  closes : (r : Router) (s : System) → Step s (record s { peer = (close r s.peer).1 })

pub data Reach (s : System) : System → Type 0 where
  here : Reach s s
  next : {t u : System} → Reach s t → Step t u → Reach s u

-- The flag tells exactly whether a goroutine is in the middle section.
abbrev pub Exclusive : System → Type 0
Exclusive s = length s.rounds ≡ (if s.peer.negotiation_pending then 1 else 0)

enter-Exclusive : (s : System) → Exclusive s → Exclusive (enter s)
unfolding enter begin_negotiation
enter-Exclusive s h = ground arith

offer_negotiation_idle :
    (pion : Pion) (h : Bool) (p : Peer) → (offer_negotiation pion h p).negotiation_pending ≡ false
unfolding offer_negotiation
offer_negotiation_idle pion h p = ground arith

handle_answer_pending :
    (pion : Pion) (p : Peer) → (handle_answer pion p).0.negotiation_pending ≡ p.negotiation_pending
unfolding handle_answer
handle_answer_pending pion p = ground arith

close_pending : (r : Router) (p : Peer) → (close r p).1.negotiation_pending ≡ p.negotiation_pending
unfolding close
close_pending r p = ground arith

change_pending :
    (c : ConnectionState) (r : Router) (p : Peer)
    → (on_state_change c r p).1.negotiation_pending ≡ p.negotiation_pending
unfolding on_state_change
change_pending c r p = ground arith

step-Exclusive : {s u : System} → Step s u → Exclusive s → Exclusive u
step-Exclusive (enters s) e = enter-Exclusive s e
step-Exclusive (leaves pion p before after h) e = ground (
  arith,
  offer_negotiation_idle pion h p,
  length-append before (h ∷ after),
  length-append before after,
)
step-Exclusive (answers pion s) e = ground (arith, handle_answer_pending pion s.peer)
step-Exclusive (changes c r s) e = ground (arith, change_pending c r s.peer)
step-Exclusive (closes r s) e = ground (arith, close_pending r s.peer)

-- From a state where the flag `negotiationPending` is set exactly while one goroutine makes an offer, and no
-- other does, every interleaving of negotiations, answers, state changes and closes keeps it so: two goroutines
-- never make an offer at once.
pub Reach-Exclusive : {s u : System} → Reach s u → Exclusive s → Exclusive u
Reach-Exclusive here e = e
Reach-Exclusive (next r st) e = step-Exclusive st (Reach-Exclusive r e)

-- A request that comes while a round of a live peer is under way is not lost: its goroutine stops at
-- once, and however the round then ends, the request is still marked, for the next answer, or a new
-- goroutine has been started for it.
pub request_not_lost :
    (pion : Pion) (h : Bool) (p : Peer)
    → is_dead p.state ≡ false
    → p.negotiation_pending ≡ true
    → let q = (begin_negotiation p).0 in
      ((begin_negotiation p).1 ≡ stops)
      × (((offer_negotiation pion h q).renegotiation_needed ≡ true)
          ⊎ ((offer_negotiation pion h q).spawned ≡ suc p.spawned))
unfolding offer_negotiation begin_negotiation
request_not_lost pion h p alive pending = ground arith
