-- ===== src/Accounting/Tests.antt =====
-- A client with one tunnel, and the theorems about its count.
use quic_diver.Base.{
  ◌+◌, ◌≡◌, refl, arith, true, false, none, some, [], ◌∷◌, Str, bytes, row_of, Str-discrete,
}
use quic_diver.Store.{TokenRow, Database, empty_database, role_user, has_token, token_row_by_hash}
use quic_diver.Store.Sessions.{session_count}
use quic_diver.Base.{true, v4, invalid}
use quic_diver.Auth
use quic_diver.Auth.{status}
use quic_diver.Admission.{Config, tunnel, assign_for}
use quic_diver.Accounting.{start_tunnel, Accountant, Tick, begin_session, run}
use quic_diver.Accounting.Counted.{counted_in, counted_out, run-counts}
use quic_diver.Accounting.Uncounted.{IsFull, IsFull-uncounted}

program : Unit {0}
unfolding begin_session run has_token session_count Str-discrete
program = tt

abbrev alice : Str
alice = bytes "a"

abbrev row : TokenRow
row = record {
  role = role_user;
  label = [];
  created_at = 1;
  updated_at = 1;
  revoked = false;
  limit_devices = 0;
  limit_sessions = 1;
  expires_at = 0;
  quota = record { limit = 0; period_days = 0; reset_at = 0; base = 0 };
}

abbrev base : Database
base = record empty_database { tokens = (alice, row) ∷ [] }

abbrev accountant : Accountant
accountant = record { id = bytes "s"; hash = alice }

abbrev first : Tick
first = record { now = 30; sent = 100; received = 7 }

abbrev last : Tick
last = record { now = 60; sent = 150; received = 9 }

begins : (begin_session base 5 alice [] [] [] (bytes "s")).0 ≡ some accountant
unfolding program
begins = refl

known : has_token base alice ≡ true
unfolding program
known = refl

run-counts_example :
    (counted_in (run (some accountant) base (first ∷ []) last) alice ≡ counted_in base alice + 9)
    × (counted_out (run (some accountant) base (first ∷ []) last) alice
        ≡ counted_out base alice + 150)
    × (row_of Str-discrete (run (some accountant) base (first ∷ []) last).sessions (bytes "s")
        ≡ none)
run-counts_example = run-counts accountant base (first ∷ []) last known (omega arith)

-- The client has its one session open.
abbrev busy : Database
busy = record base {
  sessions =
      (
        bytes "s",
        record {
          token_hash = alice;
          hwid = [];
          remote_ip = [];
          node = [];
          started_at = 5;
          last_seen = 5;
          bytes_in = 0;
          bytes_out = 0;
        },
      )
      ∷ [];
}

busy-IsFull : IsFull busy alice row
unfolding program token_row_by_hash
busy-IsFull = (refl, omega arith, omega arith)

-- A node that gives every client the same address.
abbrev cfg : Config
cfg = record {
  assign = record { addr = v4 0x0a070002; bits = 32 } ∷ [];
  pool = record { addr = invalid; bits = 0 };
}

abbrev visit : Auth.Session
visit = record { role = role_user; hash = alice; hwid = []; ready = true }

given : assign_for cfg (some busy) (some visit) ≡ some (cfg.assign, some busy)
unfolding program assign_for
given = refl

IsFull-uncounted_example :
    (let (response, a, store) =
        start_tunnel cfg (some busy) (some visit) true 9 [] [] (bytes "t") in
      (response ≡ tunnel cfg.assign)
      × ((d'' : Database) × (store ≡ some d'')
          × ((run a d'' (first ∷ []) last).traffic ≡ busy.traffic)))
IsFull-uncounted_example =
    IsFull-uncounted cfg busy busy visit 9 b'a' [] [] [] (bytes "t") cfg.assign row (first ∷ [])
      last refl refl given busy-IsFull
