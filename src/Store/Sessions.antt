-- ===== src/Store/Sessions.antt =====
-- internal/server/db/accounting.go: the live sessions of the clients and the traffic they count.
pub mod Limit
use quic_diver.Base.{
  ℕ, ◌+◌, ◌-◌, Bool, true, false, not, ◌&&◌, ltb, leb, ◌==◌, if◌then◌else◌, Option, none, some,
  put_row, row_of, delete_row, keep_rows, count_rows, Str, Str-discrete,
}
use quic_diver.Store.{StoreError, Result, Session, Traffic, Database, has_token, same_text}

unfoldable pub is_session_of : Str → Str → Session → Bool
unfolding same_text
is_session_of hash id s = same_text s.token_hash hash

-- `SELECT COUNT(*) FROM sessions WHERE token_hash = ?`
unfoldable pub session_count : Database → Str → ℕ
unfolding is_session_of
session_count d hash = count_rows (is_session_of hash) d.sessions

-- The row of a session that starts, with the counters at 0.
unfoldable pub new_session : ℕ → Session → Session
new_session now s = record s {
  started_at = if s.started_at == 0 then now else s.started_at;
  last_seen = now;
  bytes_in = 0;
  bytes_out = 0;
}

-- The first statement of `OpenSession`, with its test: the client has room for a session.
unfoldable pub has_room : Database → Str → ℕ → Bool
unfolding session_count
has_room d hash limit = not (ltb 0 limit && leb limit (session_count d hash))

-- The second statement of `OpenSession`.
unfoldable pub insert_session : Database → ℕ → Str → Session → Result Database
unfolding new_session
insert_session d now id s =
    if has_token d s.token_hash
    then Result.done
        (record d { sessions = put_row Str-discrete d.sessions id (new_session now s) })
    else Result.failed StoreError.foreign_key

-- `OpenSession` with nothing between its two statements.
unfoldable pub open_session : Database → ℕ → Str → Session → ℕ → Result Database
unfolding has_room insert_session
open_session d now id s limit =
    if has_room d s.token_hash limit
    then insert_session d now id s
    else Result.failed StoreError.session_limit

unfoldable pub touched : ℕ → ℕ → ℕ → Session → Session
touched now delta_in delta_out s = record s {
  last_seen = now;
  bytes_in = s.bytes_in + delta_in;
  bytes_out = s.bytes_out + delta_out;
}

-- The update of the session; a session that is not there is no error.
unfoldable pub touch_row : Database → ℕ → Str → ℕ → ℕ → Database
unfolding touched
touch_row d now id delta_in delta_out = elim (row_of Str-discrete d.sessions id) [
  | none ↦ d
  | some s ↦ record d {
    sessions = put_row Str-discrete d.sessions id (touched now delta_in delta_out s);
  }
]

unfoldable pub merge_traffic : ℕ → ℕ → ℕ → Option Traffic → Traffic
merge_traffic now delta_in delta_out none = record {
  bytes_in = delta_in;
  bytes_out = delta_out;
  updated = now;
}
merge_traffic now delta_in delta_out (some t) = record {
  bytes_in = t.bytes_in + delta_in;
  bytes_out = t.bytes_out + delta_out;
  updated = now;
}

-- `INSERT INTO traffic …`: a new row needs the token.
unfoldable pub add_traffic : Database → ℕ → Str → ℕ → ℕ → Result Database
unfolding merge_traffic
add_traffic d now hash delta_in delta_out =
    if has_token d hash
    then Result.done (record d {
      traffic =
          put_row Str-discrete d.traffic hash
            (merge_traffic now delta_in delta_out (row_of Str-discrete d.traffic hash));
    })
    else Result.failed StoreError.foreign_key

-- The database and the error: the first statement stays when the second fails.
abbrev pub after_traffic : Database → Result Database → Database × Option StoreError
after_traffic d (Result.failed e) = (d, some e)
after_traffic d (Result.done d') = (d', none)

-- `TouchSession`
unfoldable pub touch_session : Database → ℕ → Str → Str → ℕ → ℕ → Database × Option StoreError
unfolding touch_row add_traffic
touch_session d now id hash delta_in delta_out =
    let d' = touch_row d now id delta_in delta_out in
    if delta_in == 0 && delta_out == 0
    then (d', none)
    else after_traffic d' (add_traffic d' now hash delta_in delta_out)

-- `CloseSession`
unfoldable pub close_session : Database → Str → Database
close_session d id = record d { sessions = delete_row Str-discrete d.sessions id }

unfoldable pub is_recent : ℕ → Str → Session → Bool
is_recent cutoff id s = leb cutoff s.last_seen

-- `SweepSessions`, with the number of rows removed.
unfoldable pub sweep_sessions : Database → ℕ → ℕ → Database × ℕ
unfolding is_recent
sweep_sessions d now older_than = (
  record d { sessions = keep_rows (is_recent (now - older_than)) d.sessions },
  count_rows (λ id s. not (is_recent (now - older_than) id s)) d.sessions,
)

-- `TrafficOf`: no row is no error.
unfoldable pub traffic_of : Database → Str → Traffic
traffic_of d hash = elim (row_of Str-discrete d.traffic hash) [
  | none ↦ record { bytes_in = 0; bytes_out = 0; updated = 0 }
  | some t ↦ t
]
