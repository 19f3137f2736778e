-- ===== src/Store/Carry.antt =====
-- internal/server/db/local.go: what a node carries over from its own database into a snapshot of the
-- master, `carryLocal`. `main` is the snapshot, `prev` the database in use. The columns updated_at of
-- a device and of its refreshing are not kept, as nothing reads them.
pub mod Merged
use quic_diver.Base.{
  ℕ, Bool, true, false, ltb, if◌then◌else◌, Option, none, some, [], ◌∷◌, Rows, row_of, put_row, Str,
  Str-discrete,
}
use quic_diver.Store.{Device, Session, Traffic, Database, Pair-discrete, has_token}
use Prim.Native.Nat.{max}

-- `INSERT OR IGNORE INTO t SELECT … WHERE p`
unfoldable pub insert_missing :
    {K V : Type 0} → Discrete K → (K → V → Bool) → Rows K V → Rows K V → Rows K V
insert_missing dec p [] t = t
insert_missing dec p ((k, v) ∷ rs) t =
    insert_missing dec p rs
      (elim (row_of dec t k) [ none ↦ if p k v then put_row dec t k v else t | some w ↦ t ])

unfoldable pub device_of_known : Database → Str × Str → Device → Bool
device_of_known d k v = has_token d k.0

unfoldable pub session_of_known : Database → Str → Session → Bool
session_of_known d id s = has_token d s.token_hash

-- A later meeting in the own database is taken over; whether the device is revoked is not.
unfoldable pub refreshed : Option Device → Device → Device
refreshed none w = w
refreshed (some v) w =
    if ltb w.last_seen v.last_seen
    then record w { last_seen = v.last_seen; last_ip = v.last_ip }
    else w

-- `UPDATE devices SET … WHERE EXISTS …`
unfoldable pub refresh_devices :
    Rows (Str × Str) Device → Rows (Str × Str) Device → Rows (Str × Str) Device
unfolding refreshed
refresh_devices prev [] = []
refresh_devices prev ((k, w) ∷ rs) =
    (k, refreshed (row_of Pair-discrete prev k) w) ∷ refresh_devices prev rs

-- The row of the counters: the larger of the two.
unfoldable pub larger : Traffic → Option Traffic → Traffic
larger v none = v
larger v (some w) = record {
  bytes_in = max w.bytes_in v.bytes_in;
  bytes_out = max w.bytes_out v.bytes_out;
  updated = max w.updated v.updated;
}

unfoldable pub carry_traffic : Database → Rows Str Traffic → Rows Str Traffic → Rows Str Traffic
unfolding larger
carry_traffic d [] t = t
carry_traffic d ((k, v) ∷ rs) t =
    carry_traffic d rs
      (if has_token d k then put_row Str-discrete t k (larger v (row_of Str-discrete t k)) else t)

-- `carryLocal`: the four queries in their order.
unfoldable pub carry_local : Database → Database → Database
unfolding insert_missing refresh_devices carry_traffic device_of_known session_of_known
carry_local main prev = record main {
  devices =
      refresh_devices prev.devices
        (insert_missing Pair-discrete (device_of_known main) prev.devices main.devices);
  sessions = insert_missing Str-discrete (session_of_known main) prev.sessions main.sessions;
  traffic = carry_traffic main prev.traffic main.traffic;
}
