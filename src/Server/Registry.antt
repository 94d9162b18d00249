-- ===== src/Server/Registry.antt =====
-- What the operations of the server do to the registry, and histories of the server.
use mephi_sfu_server_project.Common.{
  String, str_eq, eq_refl, Bool, true, false, List, [], ◌∷◌, Option, none, some, ◌≡◌, ◌≢◌, sym,
  subst, arith, Bool-cases, Option-cases, refl, inl, inr, if◌then◌else◌, ◌↔◌,
}
use mephi_sfu_server_project.Map.{lookup, insert, contains}
use mephi_sfu_server_project.Map.Laws.{contains-lookup, lookup-insert, lookup-delete}
use mephi_sfu_server_project.Peer.{Pion}
use mephi_sfu_server_project.Cascade.{ClusterMessage}
use mephi_sfu_server_project.Cluster.{Redis}
use mephi_sfu_server_project.Room.{Room, RoomConfig}
use mephi_sfu_server_project.Room.Invariant.History.{Call, step, closes, messages}
use mephi_sfu_server_project.Room.Invariant.Notices.{step-Told}
use mephi_sfu_server_project.Server.{SfuServer, ServerConfig, new_sfu_server}
use mephi_sfu_server_project.Server.Ops.{
  ServerError, server_closed, max_room_limit, room_already_exists, room_not_found, create_room,
  get_or_create_room, on_room_closed, on_room, close_room, handle_cluster_message, close, at_limit,
  join_cluster, make_room,
}
use mephi_sfu_server_project.Server.Invariant.{
  Inv, new_sfu_server-Inv, create_room-Inv, get_or_create_room-Inv, on_room-Inv, close-Inv,
}

module _ {S : Type 0} (redis : Redis S) where
  -- `CreateRoom` fails exactly where the server is closed, the limit is reached or the name is
  -- taken, reported in this order, and then it changes nothing, the registry of the cluster included.
  pub create_room_fails :
      (pion : Pion) (id : String) (config : RoomConfig) (s : SfuServer S)
      → ((create_room redis pion id config s).1 ≢ none → (create_room redis pion id config s).0 ≡ s)
        × (((create_room redis pion id config s).1 ≡ some server_closed) ↔ (s.closed ≡ true))
        × (((create_room redis pion id config s).1 ≡ some max_room_limit)
            ↔ ((s.closed ≡ false) × (at_limit s ≡ true)))
        × (((create_room redis pion id config s).1 ≡ some room_already_exists)
            ↔ ((s.closed ≡ false) × (at_limit s ≡ false) × (lookup id s.rooms ≢ none)))
  unfolding create_room
  create_room_fails pion id config s = ground (arith, contains-lookup id s.rooms)

  -- On an open server below its limit, `GetOrCreateRoom` leaves the room under the name in the registry: the one that
  -- was there, untouched, or a new one; every other room is as it was.
  pub get_or_create_room_gets :
      (pion : Pion) (id : String) (config : RoomConfig) (s : SfuServer S)
      → s.closed ≡ false
      → at_limit s ≡ false
      → ((get_or_create_room redis pion id config s).1 ≡ none)
        × (lookup id (get_or_create_room redis pion id config s).0.rooms ≢ none)
        × (lookup id s.rooms ≢ none → (get_or_create_room redis pion id config s).0 ≡ s)
        × ((j : String)
            → str_eq id j ≡ false
            → lookup j (get_or_create_room redis pion id config s).0.rooms ≡ lookup j s.rooms)
  unfolding get_or_create_room create_room
  get_or_create_room_gets pion id config s up below =
      let room = (join_cluster redis pion (make_room id config s) s).0 in
      (
        ground (arith, up, below),
        λ e. ground (
          arith,
          up,
          below,
          e,
          contains-lookup id s.rooms,
          lookup-insert id id room s.rooms,
          eq_refl id,
        ),
        λ e. ground (arith, up, below, e, contains-lookup id s.rooms),
        λ j ne.
            ground
              (arith, up, below, ne, contains-lookup id s.rooms, lookup-insert id j room s.rooms),
      )

  -- A call on a room of a well-formed server drops it from the registry exactly when the call
  -- closes it; otherwise the registry has the room as the call leaves it.
  pub on_room_lem :
      (c : Call) (id : String) (room : Room) (s : SfuServer S)
      → Inv s
      → lookup id s.rooms ≡ some room
      → lookup id (on_room redis c id s).rooms
        ≡ (if (step c room).close_once then none else some (step c room))
  unfolding on_room on_room_closed
  on_room_lem c id room s v e =
      let w = v.registered id room e in
      let t = step-Told c room w.told in
      let there : lookup id (insert id (step c room) s.rooms) ≡ some (step c room) =
        ground (arith, lookup-insert id id (step c room) s.rooms, eq_refl id) in
      ground (
        arith,
        e,
        w.told.once,
        w.live,
        t.once,
        t.named,
        there,
        lookup-delete id id (insert id (step c room) s.rooms),
        eq_refl id,
      )

  -- A call on a room of a well-formed server leaves the other rooms as they were.
  pub on_room_others :
      (c : Call) (id j : String) (s : SfuServer S)
      → Inv s
      → str_eq id j ≡ false
      → lookup j (on_room redis c id s).rooms ≡ lookup j s.rooms
  unfolding on_room on_room_closed
  on_room_others c id j s v ne = elim (Option-cases (lookup id s.rooms)) [
    | inl e ↦ rw (e, on_room) refl
    | inr (room, e) ↦
        let t = step-Told c room (v.registered id room e).told in
        ground (
          arith,
          e,
          ne,
          t.named,
          lookup-insert id j (step c room) s.rooms,
          lookup-delete id j (insert id (step c room) s.rooms),
        )
  ]

pub data Request : Type 0 where
  creates gets : Pion → String → RoomConfig → Request
  calls : Call → String → Request
  closes_room : String → Request
  hears : Pion → String → ClusterMessage → Request
  shuts : Request

module _ {S : Type 0} (redis : Redis S) where
  unfoldable pub serve : Request → SfuServer S → SfuServer S
  unfolding create_room get_or_create_room on_room close_room handle_cluster_message close
  serve (creates pion id config) s = (create_room redis pion id config s).0
  serve (gets pion id config) s = (get_or_create_room redis pion id config s).0
  serve (calls c id) s = on_room redis c id s
  serve (closes_room id) s = (close_room redis id s).0
  serve (hears pion node msg) s = handle_cluster_message redis pion node msg s
  serve shuts s = close s

  unfoldable pub serve_all : List Request → SfuServer S → SfuServer S
  unfolding serve
  serve_all [] s = s
  serve_all (q ∷ rest) s = serve_all rest (serve q s)

  close_room-Inv : (id : String) (s : SfuServer S) → Inv s → Inv (close_room redis id s).0
  unfolding close_room
  close_room-Inv id s v = elim (Bool-cases (contains id s.rooms)) [
    | inl c ↦ subst (λ b. Inv (pick b).0) (sym c) (on_room-Inv redis closes id s v)
    | inr c ↦ subst (λ b. Inv (pick b).0) (sym c) v
  ]
    where
      pick : Bool → SfuServer S × Option ServerError
      pick b = if b then (on_room redis closes id s, none) else (s, some room_not_found)

  pub serve-Inv : (q : Request) (s : SfuServer S) → Inv s → Inv (serve q s)
  unfolding serve handle_cluster_message
  serve-Inv (creates pion id config) s v = create_room-Inv redis pion id config s v
  serve-Inv (gets pion id config) s v = get_or_create_room-Inv redis pion id config s v
  serve-Inv (calls c id) s v = on_room-Inv redis c id s v
  serve-Inv (closes_room id) s v = close_room-Inv id s v
  serve-Inv (hears pion node msg) s v = on_room-Inv redis (messages pion node msg) msg.room_id s v
  serve-Inv shuts s v = close-Inv s v

  serve_all-Inv : (qs : List Request) (s : SfuServer S) → Inv s → Inv (serve_all qs s)
  unfolding serve_all
  serve_all-Inv [] s v = v
  serve_all-Inv (q ∷ rest) s v = serve_all-Inv rest (serve q s) (serve-Inv q s v)

  -- After any requests to a new server, whatever Redis and pion answer: each room of the registry stands once,
  -- under its own name, well-formed, open and not yet reported closed; the rooms are within the limit, if there
  -- is one; the gauge of active rooms is their number until the server closes; and a closed server has none.
  pub serve_all-new_sfu_server-Inv :
      (config : ServerConfig) (store : S) (qs : List Request)
      → Inv (serve_all qs (new_sfu_server config store))
  serve_all-new_sfu_server-Inv config store qs =
      serve_all-Inv qs _ (new_sfu_server-Inv config store)
