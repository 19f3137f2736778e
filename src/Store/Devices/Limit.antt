-- ===== src/Store/Devices/Limit.antt =====
-- The answers of `TouchDevice`, and the number of devices that it leaves.
use quic_diver.Base.{
  ℕ, ◌+◌, ◌≤◌, ◌<◌, arith, ◌≡◌, refl, ◌∙◌, ◌⊎◌, inl, inr, true, false, ◌&&◌, ltb, leb, if-cases,
  Option, none, some, ◌∷◌, row_of, row_of-put_row_at, row_of-put_row_other, ◌≢◌, count_rows-put_row,
  count_rows-put_row_old, Str,
}
use quic_diver.Store.{
  StoreError, Result, TokenRow, Device, Database, Pair-discrete, same_text_refl, token_row_by_hash,
}
use quic_diver.Store.Devices.{
  seen_device, new_device, is_active_of, device_count, put_device, add_device, touch_found,
  touch_device,
}

abbrev device : Database → Str → Str → Option Device
device d hash hwid = row_of Pair-discrete d.devices (hash, hwid)

-- What `TouchDevice` may answer for a device with a name.
abbrev pub Admits : Database → ℕ → Str → Str → Str → Result Database → Type 0
Admits d now hash hwid ip (Result.failed StoreError.device_limit) =
    (r : TokenRow) × (token_row_by_hash d hash ≡ some r)
    × (device d hash hwid ≡ none)
    × (0 < r.limit_devices)
    × (r.limit_devices ≤ device_count d hash)
Admits d now hash hwid ip (Result.failed StoreError.device_revoked) =
    (v : Device) × (device d hash hwid ≡ some v) × (v.revoked ≡ true)
Admits d now hash hwid ip (Result.failed StoreError.not_found) =
    (device d hash hwid ≡ none) × (token_row_by_hash d hash ≡ none)
Admits d now hash hwid ip (Result.failed e) = ⊥
Admits d now hash hwid ip (Result.done d') =
    ((v : Device) × (device d' hash hwid ≡ some v)
      × (v.last_seen ≡ now)
      × (v.last_ip ≡ ip)
      × (v.revoked ≡ false))
    × ((k : Str × Str)
        → k ≢ (hash, hwid)
        → row_of Pair-discrete d'.devices k ≡ row_of Pair-discrete d.devices k)
    × (((v : Device) × (device d hash hwid ≡ some v)
          × (v.revoked ≡ false)
          × (device d' hash hwid ≡ some (record v { last_seen = now; last_ip = ip }))
          × (device_count d' hash ≡ device_count d hash))
        ⊎ (r : TokenRow) × (token_row_by_hash d hash ≡ some r)
          × (device d hash hwid ≡ none)
          × (device_count d' hash ≡ device_count d hash + 1)
          × ((r.limit_devices ≡ 0) ⊎ (device_count d' hash ≤ r.limit_devices)))

module _ (d : Database) (now : ℕ) (hash hwid ip : Str) where
  known-Admits :
      (v : Device)
      → device d hash hwid ≡ some v
      → Admits d now hash hwid ip (touch_found d now hash hwid ip (some v))
  unfolding touch_found seen_device put_device device_count is_active_of
  known-Admits v e =
      if-cases (Admits d now hash hwid ip) v.revoked _ _ (λ r. (v, e, r))
        (λ r. (
          (
            seen_device now ip v,
            row_of-put_row_at Pair-discrete d.devices (hash, hwid) _,
            refl,
            refl,
            r,
          ),
          (λ k. row_of-put_row_other Pair-discrete d.devices (hash, hwid) k _),
          inl (
            v,
            e,
            r,
            row_of-put_row_at Pair-discrete d.devices (hash, hwid) _,
            omega (
              arith,
              count_rows-put_row_old Pair-discrete (is_active_of hash) d.devices (hash, hwid)
                  (seen_device now ip v) v e,
            ),
          ),
        ))

  new_count :
      device d hash hwid ≡ none
      → device_count (put_device d hash hwid (new_device now ip)) hash ≡ device_count d hash + 1
  unfolding put_device device_count is_active_of new_device
  new_count e =
      count_rows-put_row Pair-discrete (is_active_of hash) d.devices (hash, hwid)
        (new_device now ip) e
      ∙ rw (same_text_refl hash)

  new-Admits :
      (o : Option TokenRow)
      → device d hash hwid ≡ none
      → token_row_by_hash d hash ≡ o
      → Admits d now hash hwid ip (add_device d now hash hwid ip o)
  unfolding add_device new_device put_device
  new-Admits none e t = (e, t)
  new-Admits (some r) e t =
      if-cases (Admits d now hash hwid ip)
        (ltb 0 r.limit_devices && leb r.limit_devices (device_count d hash)) _ _
        (λ full. (r, t, e, ground arith, ground arith))
        (λ free. (
          (
            new_device now ip,
            row_of-put_row_at Pair-discrete d.devices (hash, hwid) _,
            refl,
            refl,
            refl,
          ),
          (λ k. row_of-put_row_other Pair-discrete d.devices (hash, hwid) k _),
          inr (r, t, e, new_count e, ground (arith, new_count e)),
        ))

-- `TouchDevice` on a device with a name: it lets in a known device that is not revoked, whose row
-- changes in the time and the address only, with the number of devices as before; and a device that
-- the table does not know, which adds one to those not revoked, within a limit that is set. The other
-- rows do not change. It refuses a revoked device, a new one at the limit, and a new one of an unknown
-- token, and nothing else.
pub touch_device-Admits :
    (d : Database) (now : ℕ) (hash : Str) (c : ℕ) (hwid ip : Str)
    → Admits d now hash (c ∷ hwid) ip (touch_device d now hash (c ∷ hwid) ip)
unfolding touch_device touch_found
touch_device-Admits d now hash c hwid ip = at (device d hash (c ∷ hwid)) refl
  where
    at :
        (o : Option Device)
        → device d hash (c ∷ hwid) ≡ o
        → Admits d now hash (c ∷ hwid) ip (touch_found d now hash (c ∷ hwid) ip o)
    at none e = new-Admits d now hash (c ∷ hwid) ip (token_row_by_hash d hash) e refl
    at (some v) e = known-Admits d now hash (c ∷ hwid) ip v e
