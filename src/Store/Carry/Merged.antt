-- ===== src/Store/Carry/Merged.antt =====
-- What a snapshot holds when the local data has been carried over, row by row.
use Prim.Native.Nat.{max}
use quic_diver.Base.{
  ℕ, ◌≤◌, ◌<◌, ◌⊎◌, inl, inr, leb, Bool-cases, sym, subst, arith, ◌≡◌, refl, ◌∙◌, Bool, true,
  if◌then◌else◌, Option, none, some, [], ◌∷◌, Rows, row_of, put_row, row_of-put_row, IsTable, Str,
  Str-discrete,
}
use quic_diver.Store.{Device, Session, Traffic, Database, Pair-discrete, has_token}
use quic_diver.Store.Carry.{
  insert_missing, device_of_known, session_of_known, refreshed, refresh_devices, larger,
  carry_traffic, carry_local,
}

module _ {K V : Type 0} (dec : Discrete K) (p : K → V → Bool) where
  -- A row that is there stays.
  missing-kept :
      (rs t : Rows K V) (k : K) (w : V)
      → row_of dec t k ≡ some w
      → row_of dec (insert_missing dec p rs t) k ≡ some w
  unfolding insert_missing
  missing-kept [] t k w h = h
  missing-kept ((j, v) ∷ rs) t k w h =
      missing-kept rs _ k w (ground (arith, row_of-put_row dec t j k v))

  -- A row that is missing comes from the other table, if it passes.
  missing-taken :
      (rs t : Rows K V) (k : K) (v : V)
      → row_of dec t k ≡ none
      → row_of dec rs k ≡ some v
      → p k v ≡ true
      → row_of dec (insert_missing dec p rs t) k ≡ some v
  unfolding insert_missing
  missing-taken [] t k v h e f = ground arith
  missing-taken ((j, w) ∷ rs) t k v h e f = elim (dec k j) [
    | yes q ↦ missing-kept rs _ k v (ground (arith, row_of-put_row dec t j k w))
    | no q ↦ missing-taken rs _ k v (ground (arith, row_of-put_row dec t j k w)) (ground arith) f
  ]

  missing-absent :
      (rs t : Rows K V) (k : K)
      → row_of dec t k ≡ none
      → row_of dec rs k ≡ none
      → row_of dec (insert_missing dec p rs t) k ≡ none
  unfolding insert_missing
  missing-absent [] t k h e = h
  missing-absent ((j, w) ∷ rs) t k h e = elim (dec k j) [
    | yes q ↦ ground arith
    | no q ↦ missing-absent rs _ k (ground (arith, row_of-put_row dec t j k w)) (ground arith)
  ]

-- The row of a device in the carried table, from the rows of the snapshot and of the own database.
abbrev pub merged_device : Option Device → Option Device → Option Device
merged_device none prev = prev
merged_device (some w) prev = some (refreshed prev w)

refresh_devices-row :
    (prev rs : Rows (Str × Str) Device) (k : Str × Str)
    → row_of Pair-discrete (refresh_devices prev rs) k ≡ (elim (row_of Pair-discrete rs k) [
      | none ↦ none
      | some w ↦ some (refreshed (row_of Pair-discrete prev k) w)
    ])
unfolding refresh_devices
refresh_devices-row prev [] k = refl
refresh_devices-row prev ((j, w) ∷ rs) k = elim (Pair-discrete k j) [
  | yes q ↦ ground (arith, refresh_devices-row prev rs k)
  | no q ↦ ground (arith, refresh_devices-row prev rs k)
]

-- Refreshed by itself a device stays as it is.
refreshed_self : (v : Device) → refreshed (some v) v ≡ v
unfolding refreshed
refreshed_self v = ground arith

-- The row of a counter in the carried table.
abbrev pub merged_traffic : Option Traffic → Option Traffic → Option Traffic
merged_traffic w none = w
merged_traffic w (some v) = some (larger v w)

carry_traffic-row :
    (d : Database) (rs t : Rows Str Traffic) (k : Str)
    → IsTable Str-discrete rs
    → has_token d k ≡ true
    → row_of Str-discrete (carry_traffic d rs t) k
      ≡ merged_traffic (row_of Str-discrete t k) (row_of Str-discrete rs k)
unfolding carry_traffic
carry_traffic-row d [] t k u h = refl
carry_traffic-row d ((j, v) ∷ rs) t k (absent, u) h =
    let t' =
      if has_token d j then put_row Str-discrete t j (larger v (row_of Str-discrete t j)) else t in
    carry_traffic-row d rs t' k u h
    ∙ ground (arith, row_of-put_row Str-discrete t j k (larger v (row_of Str-discrete t j)))

-- A device on the terms of the master, `w`, with the later one of the two meetings.
abbrev pub IsMet : Device → Device → Device → Type 0
IsMet w v r =
    (r.label ≡ w.label)
    × (r.first_seen ≡ w.first_seen)
    × (r.revoked ≡ w.revoked)
    × (w.last_seen < v.last_seen → (r.last_seen ≡ v.last_seen) × (r.last_ip ≡ v.last_ip))
    × (v.last_seen ≤ w.last_seen → (r.last_seen ≡ w.last_seen) × (r.last_ip ≡ w.last_ip))

-- The device in the snapshot, in the own database, and in the carried one.
abbrev pub DeviceCarried : Option Device → Option Device → Option Device → Type 0
DeviceCarried none v o = o ≡ v
DeviceCarried (some w) none o = o ≡ some w
DeviceCarried (some w) (some v) o = (r : Device) × (o ≡ some r) × IsMet w v r

-- The larger one of two numbers.
abbrev pub IsLarger : ℕ → ℕ → ℕ → Type 0
IsLarger m n k = (m ≤ k) × (n ≤ k) × ((k ≡ m) ⊎ (k ≡ n))

-- The counter in the snapshot, in the own database, and in the carried one.
abbrev pub CounterCarried : Option Traffic → Option Traffic → Option Traffic → Type 0
CounterCarried w none o = o ≡ w
CounterCarried none (some v) o = o ≡ some v
CounterCarried (some w) (some v) o =
    (r : Traffic) × (o ≡ some r)
    × IsLarger w.bytes_in v.bytes_in r.bytes_in
    × IsLarger w.bytes_out v.bytes_out r.bytes_out

merged-DeviceCarried : (w v : Option Device) → DeviceCarried w v (merged_device w v)
unfolding refreshed
merged-DeviceCarried none v = refl
merged-DeviceCarried (some w) none = refl
merged-DeviceCarried (some w) (some v) = (
  refreshed (some v) w,
  refl,
  (
    ground arith,
    ground arith,
    ground arith,
    (λ h. (ground arith, ground arith)),
    λ h. (ground arith, ground arith),
  ),
)

max-IsLarger : (m n : ℕ) → IsLarger m n (max m n)
max-IsLarger m n = (
  omega arith,
  omega arith,
  elim (Bool-cases (leb n m)) [ inl h ↦ inl (ground arith) | inr h ↦ inr (ground arith) ],
)

pub merged-CounterCarried : (w v : Option Traffic) → CounterCarried w v (merged_traffic w v)
unfolding larger
merged-CounterCarried w none = refl
merged-CounterCarried none (some v) = refl
merged-CounterCarried (some w) (some v) = (
  larger v (some w),
  refl,
  max-IsLarger w.bytes_in v.bytes_in,
  max-IsLarger w.bytes_out v.bytes_out,
)

-- What the carried database holds for a client that the snapshot knows.
abbrev pub Carries : Database → Database → Database → Type 0
Carries main prev d =
    (d.tokens ≡ main.tokens)
    × (d.assignments ≡ main.assignments)
    × (d.node_traffic ≡ main.node_traffic)
    × (d.client_configs ≡ main.client_configs)
    × (d.nodes ≡ main.nodes)
    × (d.cluster ≡ main.cluster)
    × ((hash hwid : Str)
        → has_token main hash ≡ true
        → DeviceCarried (row_of Pair-discrete main.devices (hash, hwid))
            (row_of Pair-discrete prev.devices (hash, hwid))
            (row_of Pair-discrete d.devices (hash, hwid)))
    × ((id : Str) (s : Session)
        → row_of Str-discrete main.sessions id ≡ none
        → row_of Str-discrete prev.sessions id ≡ some s
        → has_token main s.token_hash ≡ true
        → row_of Str-discrete d.sessions id ≡ some s)
    × ((hash : Str)
        → has_token main hash ≡ true
        → CounterCarried (row_of Str-discrete main.traffic hash)
            (row_of Str-discrete prev.traffic hash) (row_of Str-discrete d.traffic hash))
    × ((id : Str) (s : Session)
        → row_of Str-discrete main.sessions id ≡ some s
        → row_of Str-discrete d.sessions id ≡ some s)

module _ (main prev : Database) where
  devices-row :
      (hash hwid : Str)
      → has_token main hash ≡ true
      → row_of Pair-discrete (carry_local main prev).devices (hash, hwid)
        ≡ merged_device
            (row_of Pair-discrete main.devices (hash, hwid))
            (row_of Pair-discrete prev.devices (hash, hwid))
  unfolding carry_local
  devices-row hash hwid h =
      let k : Str × Str = (hash, hwid) in
      let p = device_of_known main in
      let new = insert_missing Pair-discrete p prev.devices main.devices in
      refresh_devices-row prev.devices new k
      ∙ at (row_of Pair-discrete main.devices k) (row_of Pair-discrete prev.devices k) refl refl
    where
      at :
          (o q : Option Device)
          → row_of Pair-discrete main.devices (hash, hwid) ≡ o
          → row_of Pair-discrete prev.devices (hash, hwid) ≡ q
          → (elim (row_of Pair-discrete
              (insert_missing Pair-discrete (device_of_known main) prev.devices main.devices)
              (hash, hwid)) [
                | none ↦ none
                | some w ↦ some (refreshed (row_of Pair-discrete prev.devices (hash, hwid)) w)
              ])
            ≡ merged_device o q
      at (some w) q e f = ground (
        arith,
        missing-kept Pair-discrete (device_of_known main) prev.devices main.devices (hash, hwid) w
            e,
      )
      at none none e f = ground (
        arith,
        missing-absent Pair-discrete (device_of_known main) prev.devices main.devices (hash, hwid) e
            f,
      )
      at none (some v) e f = ground (
        arith,
        refreshed_self v,
        missing-taken Pair-discrete (device_of_known main) prev.devices main.devices (hash, hwid) v
            e f h,
      )

-- `carryLocal` leaves the tables of the master as they are. For a client that the master knows, a
-- device is on the master's terms, revoked or not, with the later meeting, or the node's own where
-- the master has none; every session of the node lives on unless the master has one of its name; and
-- the counter is the larger one of the two.
pub carry_local-Carries :
    (main prev : Database)
    → IsTable Str-discrete prev.traffic
    → Carries main prev (carry_local main prev)
unfolding carry_local
carry_local-Carries main prev u = (
  refl,
  refl,
  refl,
  refl,
  refl,
  refl,
  (λ hash hwid h.
      let w = row_of Pair-discrete main.devices (hash, hwid) in
      let v = row_of Pair-discrete prev.devices (hash, hwid) in
      subst (DeviceCarried w v) (sym (devices-row main prev hash hwid h))
        (merged-DeviceCarried w v)),
  (λ id s e f h.
      missing-taken Str-discrete (session_of_known main) prev.sessions main.sessions id s e f h),
  (λ hash h.
      let w = row_of Str-discrete main.traffic hash in
      let v = row_of Str-discrete prev.traffic hash in
      subst (CounterCarried w v) (sym (carry_traffic-row main prev.traffic main.traffic hash u h))
        (merged-CounterCarried w v)),
  λ id s e. missing-kept Str-discrete (session_of_known main) prev.sessions main.sessions id s e,
)
