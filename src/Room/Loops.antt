-- ===== src/Room/Loops.antt =====
-- The loops of room.go over receivers, peers and bridges, which run outside the lock of the room.
use mephi_sfu_server_project.Common.{String, str_eq, List, [], ◌∷◌, Option, if◌then◌else◌}
use mephi_sfu_server_project.Map.{Map}
use mephi_sfu_server_project.Receiver.{Receiver}
use mephi_sfu_server_project.Router.{Router}
use mephi_sfu_server_project.Peer.{Peer, Pion}
use mephi_sfu_server_project.Peer.Ops as PeerOps
use mephi_sfu_server_project.Cascade
use mephi_sfu_server_project.Cascade.{CascadeBridge, cascade_peer}

-- An error of `SubscribeToTrack` is logged and dropped.
abbrev pub without_error {ℓ} : {E : Type ℓ} → Router × Peer × Option E → Router × Peer
without_error (r, p, e) = (r, p)

-- `Join` subscribes the new peer to each track that is there, except its own.
unfoldable pub subscribe_existing : Pion → List Receiver → Router → Peer → Router × Peer
subscribe_existing pion [] r p = (r, p)
subscribe_existing pion (recv ∷ rest) r p =
    let (r', p') =
      if str_eq recv.owner_peer_id p.id
      then (r, p)
      else without_error (PeerOps.subscribe_to_track pion recv.track_id r p) in
    subscribe_existing pion rest r' p'

-- `onReceiverAdded` subscribes each peer but the owner to the new track.
unfoldable pub subscribe_others : Pion → String → String → Router → Map Peer → Router × Map Peer
subscribe_others pion t owner r [] = (r, [])
subscribe_others pion t owner r ((id, p) ∷ rest) =
    let (r', p') =
      if str_eq id owner then (r, p) else without_error (PeerOps.subscribe_to_track pion t r p) in
    let (r'', rest') = subscribe_others pion t owner r' rest in (r'', (id, p') ∷ rest')

-- `onReceiverRemoved` unsubscribes each peer but the owner.
unfoldable pub unsubscribe_others : Pion → String → String → Router → Map Peer → Router × Map Peer
unsubscribe_others pion t owner r [] = (r, [])
unsubscribe_others pion t owner r ((id, p) ∷ rest) =
    let (r', p') =
      if str_eq id owner
      then (r, p)
      else without_error (PeerOps.unsubscribe_from_track pion t r p) in
    let (r'', rest') = unsubscribe_others pion t owner r' rest in (r'', (id, p') ∷ rest')

abbrev pub without_bridge_error {ℓ} :
    {E : Type ℓ} → Router × CascadeBridge × Option E → Router × CascadeBridge
without_bridge_error (r, b, e) = (r, b)

-- The track goes to every other node, but not back to the one that it came from.
unfoldable pub cascade_track :
    Pion → String → String → Router → Map CascadeBridge → Router × Map CascadeBridge
cascade_track pion t owner r [] = (r, [])
cascade_track pion t owner r ((node, b) ∷ rest) =
    let (r', b') =
      if str_eq owner (cascade_peer b.remote_node_id)
      then (r, b)
      else without_bridge_error (Cascade.add_track pion t r b) in
    let (r'', rest') = cascade_track pion t owner r' rest in (r'', (node, b') ∷ rest')

-- A new bridge gets the tracks that are there, except those of its own node.
unfoldable pub cascade_existing :
    Pion → List Receiver → Router → CascadeBridge → Router × CascadeBridge
cascade_existing pion [] r b = (r, b)
cascade_existing pion (recv ∷ rest) r b =
    let (r', b') =
      if str_eq recv.owner_peer_id (cascade_peer b.remote_node_id)
      then (r, b)
      else without_bridge_error (Cascade.add_track pion recv.track_id r b) in
    cascade_existing pion rest r' b'

-- `Close` closes every peer; the log has the closed peers, in the order of the loop.
unfoldable pub close_peers : Router → Map Peer → Router × List Peer
close_peers r [] = (r, [])
close_peers r ((id, p) ∷ rest) =
    let (r', p', called) = PeerOps.close r p in
    let (r'', closed) = close_peers r' rest in (r'', p' ∷ closed)

unfoldable pub close_bridges : Router → Map CascadeBridge → Router
close_bridges r [] = r
close_bridges r ((node, b) ∷ rest) = close_bridges (Cascade.close r b).0 rest
