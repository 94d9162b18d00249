-- ===== src/Room/Invariant.antt =====
-- Well-formedness of a room, kept by every operation of Ops.antt.
pub mod Loops
pub mod Keep
pub mod Leaving
pub mod Tracks
pub mod History
pub mod Notices
use mephi_sfu_server_project.Common.{
  ℕ, ◌+◌, ◌≤◌, ◌<◌, String, Bool, true, false, List, [], ◌∷◌, Option, none, some, length, ◌≡◌,
}
use mephi_sfu_server_project.Map.{Map, Distinct}
use mephi_sfu_server_project.Router.Invariant as RouterInvariant
use mephi_sfu_server_project.Peer.{Peer}
use mephi_sfu_server_project.Room.{Room, Metrics}

-- A member stands under its own name, tells the room when it closes, and has not been closed.
pub record Member (id : String) (p : Peer) : Type 0 where
  pub named : p.id ≡ id
  pub reports : p.on_close ≡ true
  pub live : p.close_once ≡ false

abbrev pub Members : Map Peer → Type 0
Members [] = Unit
Members ((id, p) ∷ rest) = Member id p × Members rest

-- The gauge of active peers is the number of members.
abbrev pub CountedPeers : Option Metrics → ℕ → Type 0
CountedPeers none n = Unit
CountedPeers (some m) n = m.peers_joined ≡ m.peers_left + n

pub record Inv (r : Room) : Type 0 where
  pub router : RouterInvariant.Inv r.router
  pub distinct : Distinct r.peers
  pub members : Members r.peers
  pub capacity : 0 < r.config.max_peers → length r.peers ≤ r.config.max_peers
  pub counted : CountedPeers r.metrics (length r.peers)
