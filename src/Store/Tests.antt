-- ===== src/Store/Tests.antt =====
-- The database of a small network, and the theorems about the store there.
use quic_diver.Base.{
  ℕ, ◌+◌, ◌≤◌, ◌<◌, inl, inr, true, ◌≡◌, refl, arith, false, List, [], ◌∷◌, Str, bytes, v4,
}
use quic_diver.Store.{
  Result, StoreError, TokenRow, Session, Cluster, Database, empty_database, role_user, has_token,
  same_text,
}
use quic_diver.Store.Addresses.{allocate_address}
use quic_diver.Store.Addresses.Free.{Allots, allocate_address-Allots}
use quic_diver.Store.Devices.{touch_device}
use quic_diver.Store.Devices.Limit.{Admits, touch_device-Admits}
use quic_diver.Store.Sessions.{has_room, insert_session, open_session, session_count}
use quic_diver.Store.Sessions.Limit.{Step, Steps, none_pending, one_more, Steps-IsBounded}
use quic_diver.Store.Reports.{NodeTraffic, report_node_traffic, network_traffic_of}
use quic_diver.Store.Reports.Again.{Delivers, report_node_traffic-Delivers}
use quic_diver.Store.Carry.{carry_local}
use quic_diver.Store.Carry.Merged.{Carries, carry_local-Carries}
use quic_diver.Store.Epochs.{cluster_state, write_cluster, promotion, promote}
use quic_diver.Store.Epochs.Rises.{Statement, Statements, Rises, Statements-Rises}

program : Unit {0}
unfolding allocate_address touch_device open_session has_room insert_session session_count
    cluster_state promotion report_node_traffic network_traffic_of carry_local promote has_token
    same_text
program = tt

abbrev token : TokenRow
token = record {
  role = role_user;
  label = [];
  created_at = 1;
  updated_at = 1;
  revoked = false;
  limit_devices = 1;
  limit_sessions = 1;
  expires_at = 0;
  quota = record { limit = 0; period_days = 0; reset_at = 0; base = 0 };
}

abbrev alice : Str
alice = bytes "a"

-- One client, with one device here.
abbrev base : Database
base = record empty_database {
  tokens = (alice, token) ∷ [];
  devices =
      (
        (alice, bytes "pc"),
        record { label = []; first_seen = 1; last_seen = 1; last_ip = []; revoked = false },
      )
      ∷ [];
  traffic = (alice, record { bytes_in = 10; bytes_out = 20; updated = 1 }) ∷ [];
}

first_address :
    allocate_address base alice (record { addr = v4 0x0a070000; bits = 24 })
    ≡ Result.done (v4 0x0a070002, record base { assignments = (alice, v4 0x0a070002) ∷ [] })
unfolding program
first_address = refl

second_device : touch_device base 5 alice (bytes "tv") [] ≡ Result.failed StoreError.device_limit
unfolding program
second_device = refl

allocate_address-Allots_example :
    Allots base alice 0x0a070000 24
      (allocate_address base alice (record { addr = v4 0x0a070000; bits = 24 }))
allocate_address-Allots_example = allocate_address-Allots base alice 0x0a070000 24 (λ h k a p q. cc)

touch_device-Admits_example :
    Admits base 5 alice (bytes "tv") [] (touch_device base 5 alice (bytes "tv") [])
touch_device-Admits_example = touch_device-Admits base 5 alice b't' (bytes "v") []

abbrev session : Session
session = record {
  token_hash = alice;
  hwid = bytes "pc";
  remote_ip = [];
  node = [];
  started_at = 0;
  last_seen = 0;
  bytes_in = 0;
  bytes_out = 0;
}

abbrev opened : Database
opened = record base {
  sessions = (bytes "s", record session { started_at = 7; last_seen = 7 }) ∷ [];
}

opens : open_session base 7 (bytes "s") session 1 ≡ Result.done opened
unfolding program
opens = refl

-- Two openings that both counted before either inserted, under a limit of 1.
abbrev opened_both : Database
opened_both = record opened {
  sessions =
      (bytes "s", record session { started_at = 7; last_seen = 7 })
      ∷ (bytes "t", record session { started_at = 8; last_seen = 8 })
      ∷ [];
}

inserted : insert_session base 7 (bytes "s") session ≡ Result.done opened
unfolding program
inserted = refl

inserted_too : insert_session opened 8 (bytes "t") session ≡ Result.done opened_both
unfolding program
inserted_too = refl

room : has_room base alice 1 ≡ true
unfolding program
room = refl

over_limit : session_count opened_both alice ≡ 2
unfolding program
over_limit = refl

none_open : (h : Str) → 0 < 1 → session_count base h ≤ 1
unfolding program
none_open h p = omega arith

one_under_way : one_more none_pending alice alice < 1 + 1
unfolding program
one_under_way = omega arith

Steps-IsBounded_example : session_count opened_both alice ≤ 1 + 1
Steps-IsBounded_example =
    Steps-IsBounded (λ h. 1) 1 base opened_both none_pending
      (Steps.steps (Step.counts alice room (omega arith)) (
        Steps.steps (Step.counts alice room one_under_way) (
          Steps.steps (Step.inserts 7 (bytes "s") session inserted)
            (Steps.steps (Step.inserts 8 (bytes "t") session inserted_too) Steps.halt))))
      none_open alice (omega arith)

abbrev report : List NodeTraffic
report = record { token_hash = alice; bytes_in = 100; bytes_out = 200 } ∷ []

abbrev delivered : ℕ → Database
delivered now = record base {
  node_traffic =
      ((bytes "n", alice), record { bytes_in = 100; bytes_out = 200; updated = now }) ∷ [];
}

delivers : report_node_traffic base 3 (bytes "n") report ≡ Result.done (delivered 3)
unfolding program
delivers = refl

delivers_again : report_node_traffic (delivered 3) 4 (bytes "n") report ≡ Result.done (delivered 4)
unfolding program
delivers_again = refl

report_node_traffic-Delivers_example :
    Delivers base 3 (bytes "n") report (report_node_traffic base 3 (bytes "n") report)
report_node_traffic-Delivers_example = report_node_traffic-Delivers base 3 b'n' [] report

-- The snapshot of a master that has counted less.
abbrev snapshot : Database
snapshot = record base {
  devices = [];
  traffic = (alice, record { bytes_in = 4; bytes_out = 40; updated = 2 }) ∷ [];
}

carried_counter :
    (carry_local snapshot base).traffic
    ≡ (alice, record { bytes_in = 10; bytes_out = 40; updated = 2 }) ∷ []
unfolding program
carried_counter = refl

carry_local-Carries_example : Carries snapshot base (carry_local snapshot base)
carry_local-Carries_example = carry_local-Carries snapshot base (refl, tt)

-- A promotion that has read the state before another one wrote it.
Statements-Rises_example :
    Rises base
      (write_cluster (promote base 5 (bytes "n")) (promotion (cluster_state base) 6 (bytes "m")))
unfolding program
Statements-Rises_example =
    Statements-Rises base
      (write_cluster (promote base 5 (bytes "n")) (promotion (cluster_state base) 6 (bytes "m")))
      (cluster_state base ∷ cluster_state base ∷ [])
      (Statements.next Statement.reads (
        Statements.next Statement.reads (
          Statements.next (Statement.promotes (cluster_state base) 5 (bytes "n") (inl refl)) (
            Statements.next (Statement.promotes (cluster_state base) 6 (bytes "m") (inr (inl refl)))
              Statements.halt))))

abbrev later : Cluster
later = record { epoch = 9; master_id = bytes "x"; updated_at = 4 }
