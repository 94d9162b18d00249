-- ===== src/Server/Invariant.antt =====
-- Well-formedness of the server, kept by every operation of Ops.antt.
use mephi_sfu_server_project.Common.{
  ℕ, ◌+◌, ◌≤◌, ◌<◌, String, str_eq, eq_iff, eq_refl, true, false, ◌&&◌, [], ◌∷◌, Option, none, some,
  length, ◌≡◌, refl, sym, ◌∙◌, ap, subst, arith, Bool-cases, Option-cases, inl, inr, if◌then◌else◌,
  ltb,
}
use mephi_sfu_server_project.Map.{Map, lookup, insert, delete, contains, Distinct}
use mephi_sfu_server_project.Map.Laws.{
  insert-Distinct, delete-Distinct, contains-lookup, lookup-insert,
}
use mephi_sfu_server_project.Map.Total.{length-insert_new, length-insert_old, length-delete}
use mephi_sfu_server_project.Map.Every.{Every, insert-Every, delete-Every, Every-nil}
use mephi_sfu_server_project.Peer.{Pion}
use mephi_sfu_server_project.Cluster.{Redis, Reply, found, missing, failed}
use mephi_sfu_server_project.Room.{Room, RoomConfig}
use mephi_sfu_server_project.Room.Ops as RoomOps
use mephi_sfu_server_project.Room.Invariant as RoomInvariant
use mephi_sfu_server_project.Room.Invariant.Keep.{new_room-Inv}
use mephi_sfu_server_project.Room.Invariant.History.{Call, step, step-Inv}
use mephi_sfu_server_project.Room.Invariant.Notices.{Told, step-Told}
use mephi_sfu_server_project.Server.{SfuServer, ServerConfig, Metrics, new_sfu_server}
use mephi_sfu_server_project.Server.Ops.{
  make_room, guest_room, place_room, join_cluster, create_room, get_or_create_room, on_room_closed,
  on_room, close, at_limit,
}

delete-insert :
    (id : String) (room : Room) (m : Map Room) → delete id (insert id room m) ≡ delete id m
unfolding delete insert
delete-insert id room [] = ground (arith, eq_refl id)
delete-insert id room ((j, q) ∷ rest) =
    ground (arith, eq_iff j id, eq_refl id, delete-insert id room rest)

-- A room of the registry is well-formed, open, and stands under its own name.
pub record Registered (id : String) (room : Room) : Type 0 where
  pub inv : RoomInvariant.Inv room
  pub told : Told id room
  pub live : room.close_once ≡ false

-- The gauge of active rooms is the size of the registry.
abbrev pub CountedRooms : Option Metrics → ℕ → Type 0
CountedRooms none n = Unit
CountedRooms (some m) n = m.rooms_created ≡ m.rooms_closed + n

pub record Inv {S : Type 0} (s : SfuServer S) : Type 0 where
  pub distinct : Distinct s.rooms
  pub registered : Every Registered s.rooms
  pub capacity : 0 < s.config.max_rooms → length s.rooms ≤ s.config.max_rooms
  pub counted : s.closed ≡ false → CountedRooms s.metrics (length s.rooms)
  pub shut : s.closed ≡ true → s.rooms ≡ []
  pub once : s.close_once ≡ s.closed

pub new_sfu_server-Inv :
    {S : Type 0} (config : ServerConfig) (store : S) → Inv (new_sfu_server config store)
unfolding new_sfu_server
new_sfu_server-Inv config store = record {
  distinct = tt;
  registered = Every-nil Registered;
  capacity = λ h. omega arith;
  counted = λ e. ground arith;
  shut = λ e. refl;
  once = refl;
}

make_room-Registered :
    {S : Type 0} (id : String) (config : RoomConfig) (s : SfuServer S)
    → Registered id (make_room id config s)
unfolding make_room
make_room-Registered id config s =
    let v = new_room-Inv s.made id config s.config.has_metrics s.config.has_kafka in
    record {
      inv = record {
        router = v.router;
        distinct = v.distinct;
        members = v.members;
        capacity = v.capacity;
        counted = v.counted;
      };
      told = record { named = refl; asked = refl; once = refl };
      live = refl;
    }

guest_room-Registered :
    (pion : Pion) (id node owner : String) (room : Room)
    → Registered id room
    → Registered id (guest_room pion node owner room)
unfolding guest_room RoomOps.add_cascade_bridge
guest_room-Registered pion id node owner room v = elim (Bool-cases pion.new_peer_connection) [
  | inl e ↦
      simp (e, guest_room)
        (record {
          inv = record {
            router = v.inv.router;
            distinct = v.inv.distinct;
            members = v.inv.members;
            capacity = v.inv.capacity;
            counted = v.inv.counted;
          };
          told = record { named = v.told.named; asked = v.told.asked; once = v.told.once };
          live = v.live;
        })
  | inr e ↦ simp (e, guest_room) v
]

module _ {S : Type 0} (redis : Redis S) where
  place_room-Registered :
      (pion : Pion) (id node : String) (reply : Reply) (room : Room) (store : S)
      → Registered id room
      → Registered id (place_room redis pion node reply room store).0
  unfolding place_room
  place_room-Registered pion id node (found owner) room store v =
      elim (Bool-cases (str_eq owner node)) [
        | inl e ↦ rw (e, place_room) v
        | inr e ↦ rw (e, place_room) (guest_room-Registered pion id node owner room v)
      ]
  place_room-Registered pion id node missing room store v = v
  place_room-Registered pion id node failed room store v = v

  join_cluster-Registered :
      (pion : Pion) (id : String) (room : Room) (s : SfuServer S)
      → Registered id room
      → Registered id (join_cluster redis pion room s).0
  unfolding join_cluster
  join_cluster-Registered pion id room s v =
      elim (Bool-cases (s.config.cluster_enabled && s.config.has_room_router)) [
        | inl e ↦ elim (Option-cases s.config.cluster_node) [
          | inl n ↦ rw (e, join_cluster, n) v
          | inr (node, n) ↦
              rw (e, join_cluster, n) (place_room-Registered pion id node _ room s.redis v)
        ]
        | inr e ↦ rw (e, join_cluster) v
      ]

  pub create_room-Inv :
      (pion : Pion) (id : String) (config : RoomConfig) (s : SfuServer S)
      → Inv s
      → Inv (create_room redis pion id config s).0
  unfolding create_room
  create_room-Inv pion id config s v = elim (Bool-cases s.closed) [
    | inl e ↦ simp (e, create_room) v
    | inr e ↦ elim (Bool-cases (at_limit s)) [
      | inl f ↦ simp (e, f, create_room) v
      | inr f ↦ elim (Bool-cases (contains id s.rooms)) [
        | inl c ↦ simp (e, f, c, create_room) v
        | inr c ↦
            let room = (join_cluster redis pion (make_room id config s) s).0 in
            let absent : lookup id s.rooms ≡ none = ground (arith, contains-lookup id s.rooms) in
            let size = length-insert_new id room s.rooms absent in
            simp (e, f, c, create_room)
              (record {
                distinct = insert-Distinct id room s.rooms v.distinct;
                registered =
                    insert-Every Registered id room s.rooms
                      (join_cluster-Registered pion id _ s (make_room-Registered id config s))
                      v.registered;
                capacity = λ h. ground (arith, f, size, v.capacity h);
                counted = λ o. ground (arith, size, v.counted e);
                shut = λ o. ground (arith, e);
                once = v.once ∙ e;
              })
      ]
    ]
  ]

  pub get_or_create_room-Inv :
      (pion : Pion) (id : String) (config : RoomConfig) (s : SfuServer S)
      → Inv s
      → Inv (get_or_create_room redis pion id config s).0
  unfolding get_or_create_room
  get_or_create_room-Inv pion id config s v = elim (Bool-cases (contains id s.rooms)) [
    | inl c ↦
        subst (λ b. Inv (if b then (s, none) else create_room redis pion id config s).0) (sym c) v
    | inr c ↦
        subst (λ b. Inv (if b then (s, none) else create_room redis pion id config s).0) (sym c)
          (create_room-Inv pion id config s v)
  ]

  -- A room of the registry after a call that leaves it open.
  kept-Inv :
      (id : String) (room room' : Room) (s : SfuServer S)
      → Inv s
      → lookup id s.rooms ≡ some room
      → Registered id room'
      → Inv (record s { rooms = insert id room' s.rooms })
  unfolding lookup
  kept-Inv id room room' s v e w =
      let size = length-insert_old id room' room s.rooms e in
      record {
        distinct = insert-Distinct id room' s.rooms v.distinct;
        registered = insert-Every Registered id room' s.rooms w v.registered;
        capacity = λ h. ground (arith, size, v.capacity h);
        counted = λ o. ground (arith, size, v.counted o);
        shut = λ o.
            let clash : none ≡ some room = ap (λ m. lookup id m) (sym (v.shut o)) ∙ e in cc clash;
        once = v.once;
      }

  -- A room leaves the registry.
  ended-Inv :
      (id : String) (room room' : Room) (s : SfuServer S)
      → Inv s
      → lookup id s.rooms ≡ some room
      → Inv (on_room_closed redis id (record s { rooms = insert id room' s.rooms }))
  unfolding on_room_closed lookup
  ended-Inv id room room' s v e =
      let there : lookup id (insert id room' s.rooms) ≡ some room' =
        ground (arith, lookup-insert id id room' s.rooms, eq_refl id) in
      let size = length-delete id room s.rooms v.distinct e in
      rw (there, on_room_closed, delete-insert id room' s.rooms)
        (record {
          distinct = delete-Distinct id s.rooms v.distinct;
          registered = delete-Every Registered id s.rooms v.registered;
          capacity = λ h. ground (arith, size, v.capacity h);
          counted = λ o. ground (arith, size, v.counted o);
          shut = λ o.
              let clash : none ≡ some room = ap (λ m. lookup id m) (sym (v.shut o)) ∙ e in cc clash;
          once = v.once;
        })

  -- The server hears of a room exactly when the call closes it.
  heard :
      (id : String) (room : Room) (c : Call)
      → Registered id room
      → ltb room.close_notices (step c room).close_notices ≡ (step c room).close_once
  heard id room c v = ground (arith, v.told.once, v.live, (step-Told c room v.told).once)

  pub on_room-Inv : (c : Call) (id : String) (s : SfuServer S) → Inv s → Inv (on_room redis c id s)
  unfolding on_room
  on_room-Inv c id s v = elim (Option-cases (lookup id s.rooms)) [
    | inl e ↦ rw (e, on_room) v
    | inr (room, e) ↦
        let w = v.registered id room e in
        let told' = step-Told c room w.told in
        elim (Bool-cases (step c room).close_once) [
          | inl b ↦
              rw (e, on_room, heard id room c w, b, told'.named)
                (ended-Inv id room (step c room) s v e)
          | inr b ↦
              rw (e, on_room, heard id room c w, b)
                (kept-Inv id room (step c room) s v e
                  (record { inv = step-Inv c room w.inv; told = told'; live = b }))
        ]
  ]

pub close-Inv : {S : Type 0} (s : SfuServer S) → Inv s → Inv (close s)
unfolding close
close-Inv s v = elim (Bool-cases s.close_once) [
  | inl e ↦ simp (e, close) v
  | inr e ↦
      simp (e, close)
        (record {
          distinct = tt;
          registered = Every-nil Registered;
          capacity = λ h. omega arith;
          counted = λ o. ground (arith, o);
          shut = λ o. refl;
          once = refl;
        })
]
