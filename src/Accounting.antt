-- ===== src/Accounting.antt =====
-- internal/server/accounting.go: the count of the traffic of one tunnel. The counters are uint64
-- numbers; `run` sees them at every tick and once more when the tunnel ends. The identifier of a
-- session is random and an argument.
pub mod Counted
pub mod Uncounted
mod Tests
use quic_diver.Base.{
  ℕ, ◌+◌, ◌-◌, ◌*◌, ◌%◌, ◌^◌, Bool, ltb, if◌then◌else◌, Option, none, some, List, [], ◌∷◌, Str,
}
use quic_diver.Auth.{status}
use quic_diver.Auth
use quic_diver.Admission.{Response, tunnel, Config, serve_connect_ip}
use quic_diver.Store.{Result, TokenRow, Session, Database, token_row_by_hash}
use quic_diver.Store.Devices.{touch_device}
use quic_diver.Store.Sessions.{open_session, touch_session, close_session}

pub record Accountant : Type 0 where
  pub id : Str
  pub hash : Str

-- The database after a call whose error is only logged.
abbrev pub logged : Database → Result Database → Database
logged d (Result.failed e) = d
logged d (Result.done d') = d'

abbrev pub session_limit_of : Option TokenRow → ℕ
session_limit_of none = 0
session_limit_of (some r) = r.limit_sessions

-- The last step of `beginSession`: without a session there is no accountant.
abbrev pub opened_account : Database → Str → Str → Result Database → Option Accountant × Database
opened_account d id hash (Result.failed e) = (none, d)
opened_account d id hash (Result.done d') = (some (record { id = id; hash = hash }), d')

-- `beginSession` on a node with a store; `node` is the authority of the node.
unfoldable pub begin_session :
    Database → ℕ → Str → Str → Str → Str → Str → Option Accountant × Database
unfolding touch_device open_session token_row_by_hash
begin_session d now [] hwid ip node id = (none, d)
begin_session d now (c ∷ hash) hwid ip node id =
    let d' = logged d (touch_device d now (c ∷ hash) hwid ip) in
    opened_account d' id (c ∷ hash) (
      open_session d' now id
        (record {
          token_hash = c ∷ hash;
          hwid = hwid;
          remote_ip = ip;
          node = node;
          started_at = 0;
          last_seen = 0;
          bytes_in = 0;
          bytes_out = 0;
        })
        (session_limit_of (token_row_by_hash d' (c ∷ hash))))

-- `recv - lastRecv` on uint64; `int64` leaves it as it is below 2 ^ 63.
abbrev pub delta : ℕ → ℕ → ℕ
delta new old = (new + 2 ^ 64 - old) % 2 ^ 64

-- When the loop of `run` wakes, with what the counter says: sent, and received.
pub record Tick : Type 0 where
  pub now : ℕ
  pub sent : ℕ
  pub received : ℕ

-- `flush`; `last` are the values of the last time, sent and received. An error is only logged.
unfoldable pub flush : Accountant → Database → ℕ × ℕ → Tick → Database
unfolding touch_session
flush a d (sent, received) t =
    (touch_session d t.now a.id a.hash (delta t.received received) (delta t.sent sent)).0

-- The loop of `run`: `t` is the tick of the end, the last of all.
unfoldable pub run_from : Accountant → Database → ℕ × ℕ → List Tick → Tick → Database
unfolding flush close_session
run_from a d last [] t = close_session (flush a d last t) a.id
run_from a d last (s ∷ ss) t = run_from a (flush a d last s) (s.sent, s.received) ss t

-- `run`; without an accountant nothing is done.
unfoldable pub run : Option Accountant → Database → List Tick → Tick → Database
unfolding run_from
run none d ss t = d
run (some a) d ss t = run_from a d (0, 0) ss t

-- `countingTunnel`
pub record CountingTunnel : Type 0 where
  pub received : ℕ
  pub sent : ℕ

-- `ReadPacket` of `n` bytes, and `WritePacket`.
unfoldable pub read_packet : CountingTunnel → ℕ → CountingTunnel
read_packet c n = if ltb 0 n then record c { received = (c.received + n) % 2 ^ 64 } else c

unfoldable pub write_packet : CountingTunnel → ℕ → CountingTunnel
write_packet c n = record c { sent = (c.sent + n) % 2 ^ 64 }

-- `totals`, read at a time.
unfoldable pub totals : CountingTunnel → ℕ → Tick
totals c now = record { now = now; sent = c.sent; received = c.received }

-- `sessionHash`; the empty text without a session that is trusted.
unfoldable pub session_hash : Option Auth.Session → Str
unfolding status
session_hash none = []
session_hash (some s) = elim (status s) [ none ↦ [] | some (role, hash) ↦ hash ]

-- `sessionHWID`
unfoldable pub session_hwid : Option Auth.Session → Str
session_hwid none = []
session_hwid (some s) = s.hwid

-- `remoteIPFrom`; `host` is the host of `net.SplitHostPort`, `none` where it fails.
unfoldable pub remote_ip_from : (Str → Option Str) → Str → Str
remote_ip_from host addr = elim (host addr) [ none ↦ addr | some h ↦ h ]

-- What follows the tunnel in the handler of `ConnectIPPath`: an accountant for it, from the values of the
-- session.
abbrev pub account_tunnel :
    Option Auth.Session
    → ℕ
    → Str
    → Str
    → Str
    → Response × Option Database
    → Response × Option Accountant × Option Database
account_tunnel s now ip node id (tunnel addrs, some d) =
    let (a, d') = begin_session d now (session_hash s) (session_hwid s) ip node id in
    (tunnel addrs, a, some d')
account_tunnel s now ip node id (r, store) = (r, none, store)

-- The whole handler of `ConnectIPPath`.
unfoldable pub start_tunnel :
    Config
    → Option Database
    → Option Auth.Session
    → Bool
    → ℕ
    → Str
    → Str
    → Str
    → Response × Option Accountant × Option Database
unfolding serve_connect_ip begin_session session_hash session_hwid
start_tunnel cfg store s parsed now ip node id =
    account_tunnel s now ip node id (serve_connect_ip cfg store s parsed)
