-- ===== src/Accounting/Uncounted.antt =====
-- A tunnel that is not counted.
use quic_diver.Base.{
  ℕ, ◌≤◌, ◌<◌, arith, ◌≡◌, refl, ap, ◌∙◌, ◌&&◌, ltb, leb, if-cases, Option, none, some, List, [],
  ◌∷◌, Rows, count_rows, row_of, Str, Str-discrete,
}
use quic_diver.Store.{
  Result, StoreError, TokenRow, Device, Session, Database, Pair-discrete, token_row_by_hash,
}
use quic_diver.Store.Devices.{touch_device, touch_found, add_device, device_count, put_device}
use quic_diver.Store.Sessions.{open_session, has_room, session_count, is_session_of}
use quic_diver.Base.{Prefix, true}
use quic_diver.Auth
use quic_diver.Auth.{status, authorized}
use quic_diver.Admission.{Config, tunnel, session_allowed, assign_for, serve_connect_ip}
use quic_diver.Accounting.{
  start_tunnel, session_hash, session_hwid, logged, session_limit_of, begin_session, Tick, run,
}

-- The tables that a device does not touch.
abbrev Untouched : Database → Result Database → Type 0
Untouched d r =
    ((logged d r).sessions ≡ d.sessions)
    × ((logged d r).tokens ≡ d.tokens)
    × ((logged d r).traffic ≡ d.traffic)

add_device-Untouched :
    (d : Database) (now : ℕ) (hash hwid ip : Str) (o : Option TokenRow)
    → Untouched d (add_device d now hash hwid ip o)
unfolding add_device put_device
add_device-Untouched d now hash hwid ip none = (refl, refl, refl)
add_device-Untouched d now hash hwid ip (some r) =
    if-cases (Untouched d) (ltb 0 r.limit_devices && leb r.limit_devices (device_count d hash)) _ _
      (λ h. (refl, refl, refl)) (λ h. (refl, refl, refl))

touch_found-Untouched :
    (d : Database) (now : ℕ) (hash hwid ip : Str) (o : Option Device)
    → Untouched d (touch_found d now hash hwid ip o)
unfolding touch_found put_device
touch_found-Untouched d now hash hwid ip none =
    add_device-Untouched d now hash hwid ip (token_row_by_hash d hash)
touch_found-Untouched d now hash hwid ip (some v) =
    if-cases (Untouched d) v.revoked _ _ (λ h. (refl, refl, refl)) (λ h. (refl, refl, refl))

touch_device-Untouched :
    (d : Database) (now : ℕ) (hash hwid ip : Str) → Untouched d (touch_device d now hash hwid ip)
unfolding touch_device
touch_device-Untouched d now hash [] ip = (refl, refl, refl)
touch_device-Untouched d now hash (c ∷ hwid) ip =
    touch_found-Untouched d now hash (c ∷ hwid) ip (row_of Pair-discrete d.devices (hash, c ∷ hwid))

open_full :
    (d : Database) (now : ℕ) (id : Str) (s : Session) (limit : ℕ)
    → 0 < limit
    → limit ≤ session_count d s.token_hash
    → open_session d now id s limit ≡ Result.failed StoreError.session_limit
unfolding open_session has_room
open_full d now id s limit pos full = ground arith

-- The client has a limit on its sessions, and has as many already.
abbrev pub IsFull : Database → Str → TokenRow → Type 0
IsFull d hash r =
    (token_row_by_hash d hash ≡ some r)
    × (0 < r.limit_sessions)
    × (r.limit_sessions ≤ session_count d hash)

-- Such a client gets no accountant, and nothing is counted without one.
begin_session-none :
    (d : Database) (now c : ℕ) (hash hwid ip node id : Str) (r : TokenRow) (ss : List Tick)
    (t : Tick)
    → IsFull d (c ∷ hash) r
    → (let (a, d') = begin_session d now (c ∷ hash) hwid ip node id in
        (a ≡ none) × ((run a d' ss t).traffic ≡ d.traffic))
unfolding begin_session session_count token_row_by_hash run
begin_session-none d now c hash hwid ip node id r ss t (row, pos, full) =
    let h = c ∷ hash in
    let d' = logged d (touch_device d now h hwid ip) in
    let (sessions, tokens, traffic) = touch_device-Untouched d now h hwid ip in
    let limit : session_limit_of (token_row_by_hash d' h) ≡ r.limit_sessions =
      ap (λ (t : Rows Str TokenRow). session_limit_of (row_of Str-discrete t h)) tokens
      ∙ ap session_limit_of row in
    let count : session_count d' h ≡ session_count d h =
      ap (λ (t : Rows Str Session). count_rows (is_session_of h) t) sessions in
    rw
      (open_full d' now id
        (record {
          token_hash = h;
          hwid = hwid;
          remote_ip = ip;
          node = node;
          started_at = 0;
          last_seen = 0;
          bytes_in = 0;
          bytes_out = 0;
        })
        (session_limit_of (token_row_by_hash d' h)) (omega (arith, limit))
        (omega (arith, limit, count)))
      (refl, traffic)

trusted_allowed :
    (d : Database) (s : Auth.Session) → s.ready ≡ true → session_allowed (some d) (some s) ≡ true
unfolding session_allowed authorized status
trusted_allowed d s h = rw h refl

trusted_hash : (s : Auth.Session) → s.ready ≡ true → session_hash (some s) ≡ s.hash
unfolding session_hash status
trusted_hash s h = rw h refl

tunnel_given :
    (cfg : Config) (d d' : Database) (s : Auth.Session) (addrs : List Prefix)
    → session_allowed (some d) (some s) ≡ true
    → assign_for cfg (some d) (some s) ≡ some (addrs, some d')
    → serve_connect_ip cfg (some d) (some s) true ≡ (tunnel addrs, some d')
unfolding serve_connect_ip
tunnel_given cfg d d' s addrs allowed given = rw (allowed, given) refl

-- A client at its limit of sessions that has a trusted session, a proper request and its addresses gets
-- its tunnel all the same; and whatever the tunnel carries, nothing of it is counted.
pub IsFull-uncounted :
    (cfg : Config) (d d' : Database) (s : Auth.Session) (now c : ℕ) (hash ip node id : Str)
    (addrs : List Prefix) (r : TokenRow) (ss : List Tick) (t : Tick)
    → s.ready ≡ true
    → s.hash ≡ c ∷ hash
    → assign_for cfg (some d) (some s) ≡ some (addrs, some d')
    → IsFull d' (c ∷ hash) r
    → (let (response, a, store) = start_tunnel cfg (some d) (some s) true now ip node id in
        (response ≡ tunnel addrs)
        × ((d'' : Database) × (store ≡ some d'') × ((run a d'' ss t).traffic ≡ d'.traffic)))
unfolding start_tunnel
IsFull-uncounted cfg d d' s now c hash ip node id addrs r ss t trusted own given full =
    let hwid = session_hwid (some s) in
    let (a, e) = begin_session-none d' now c hash hwid ip node id r ss t full in
    let served = tunnel_given cfg d d' s addrs (trusted_allowed d s trusted) given in
    rw (served, trusted_hash s trusted, own) (refl, (_, refl, e))
