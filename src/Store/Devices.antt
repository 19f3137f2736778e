-- ===== src/Store/Devices.antt =====
-- internal/server/db/accounting.go: the devices of a client, and the limit on their number.
pub mod Limit
use quic_diver.Base.{
  ℕ, Bool, true, false, not, ◌&&◌, ltb, leb, if◌then◌else◌, Option, none, some, [], ◌∷◌, put_row,
  row_of, count_rows, Str,
}
use quic_diver.Store.{
  StoreError, Result, TokenRow, Device, Database, Pair-discrete, same_text, token_row_by_hash,
}

-- The row of a device that comes back, and of a new one.
unfoldable pub seen_device : ℕ → Str → Device → Device
seen_device now ip v = record v { last_seen = now; last_ip = ip }

unfoldable pub new_device : ℕ → Str → Device
new_device now ip = record {
  label = [];
  first_seen = now;
  last_seen = now;
  last_ip = ip;
  revoked = false;
}

unfoldable pub is_active_of : Str → Str × Str → Device → Bool
unfolding same_text
is_active_of hash k v = same_text k.0 hash && not v.revoked

-- `SELECT COUNT(*) FROM devices WHERE token_hash = ? AND revoked = 0`
unfoldable pub device_count : Database → Str → ℕ
unfolding is_active_of
device_count d hash = count_rows (is_active_of hash) d.devices

unfoldable pub put_device : Database → Str → Str → Device → Database
unfolding Pair-discrete
put_device d hash hwid v = record d { devices = put_row Pair-discrete d.devices (hash, hwid) v }

-- A device that the table does not know; a token that is not there fails the query for the limit.
unfoldable pub add_device : Database → ℕ → Str → Str → Str → Option TokenRow → Result Database
unfolding device_count put_device new_device
add_device d now hash hwid ip none = Result.failed StoreError.not_found
add_device d now hash hwid ip (some r) =
    if ltb 0 r.limit_devices && leb r.limit_devices (device_count d hash)
    then Result.failed StoreError.device_limit
    else Result.done (put_device d hash hwid (new_device now ip))

unfoldable pub touch_found : Database → ℕ → Str → Str → Str → Option Device → Result Database
unfolding add_device seen_device token_row_by_hash
touch_found d now hash hwid ip none = add_device d now hash hwid ip (token_row_by_hash d hash)
touch_found d now hash hwid ip (some v) =
    if v.revoked
    then Result.failed StoreError.device_revoked
    else Result.done (put_device d hash hwid (seen_device now ip v))

-- `TouchDevice`
unfoldable pub touch_device : Database → ℕ → Str → Str → Str → Result Database
unfolding touch_found Pair-discrete
touch_device d now hash [] ip = Result.done d
touch_device d now hash (c ∷ hwid) ip =
    touch_found d now hash (c ∷ hwid) ip (row_of Pair-discrete d.devices (hash, c ∷ hwid))

-- `RevokeDevice`
unfoldable pub revoke_device : Database → Str → Str → Bool → Result Database
unfolding put_device
revoke_device d hash hwid revoked = elim (row_of Pair-discrete d.devices (hash, hwid)) [
  | none ↦ Result.failed StoreError.not_found
  | some v ↦ Result.done (put_device d hash hwid (record v { revoked = revoked }))
]
