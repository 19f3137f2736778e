-- ===== src/Heartbeat/Tests.antt =====
-- A node and its master, and the theorems about their beats.
use quic_diver.Base.{
  ℕ, ◌≡◌, refl, ◌||◌, ltb, true, false, none, some, [], ◌∷◌, Str, bytes, row_of, Str-discrete,
}
use quic_diver.Store.{
  TokenRow, Traffic, Node, Database, empty_database, role_user, has_token, same_text,
}
use quic_diver.Store.Nodes.{node_by_token_hash}
use quic_diver.Store.Reports.{report_node_traffic}
use quic_diver.Heartbeat.{Beater, beat, beat_of, beat_linked, report}
use quic_diver.Heartbeat.Synced.{IsSynced, Counts, counters, beat_linked-IsSynced}
use quic_diver.Heartbeat.Lost.{beat_linked-lost}

program : Unit {0}
unfolding beat beat_of report has_token same_text node_by_token_hash report_node_traffic
program = tt

abbrev alice : Str
alice = bytes "a"

abbrev row : TokenRow
row = record {
  role = role_user;
  label = [];
  created_at = 1;
  updated_at = 1;
  revoked = false;
  limit_devices = 0;
  limit_sessions = 0;
  expires_at = 0;
  quota = record { limit = 0; period_days = 0; reset_at = 0; base = 0 };
}

abbrev own : Database
own = record empty_database {
  tokens = (alice, row) ∷ [];
  traffic = (alice, record { bytes_in = 10; bytes_out = 20; updated = 1 }) ∷ [];
}

abbrev neighbour : Node
neighbour = record {
  label = [];
  category = [];
  tags = [];
  addr = [];
  sni = [];
  token_hash = bytes "k";
  enabled = true;
  last_seen = 0;
  updated_at = 0;
}

abbrev master : Database
master = record empty_database { tokens = (alice, row) ∷ []; nodes = (bytes "n", neighbour) ∷ [] }

abbrev fresh : Beater
fresh = record { held = none; sent = λ h. none }

-- A node alone is its own master, and reports to itself.
alone :
    (beat true (λ rows. none) own 9 (bytes "n") fresh).store.node_traffic
    ≡ ((bytes "n", alice), record { bytes_in = 10; bytes_out = 20; updated = 9 }) ∷ []
unfolding program
alone = refl

registered : node_by_token_hash master (bytes "k") ≡ some (bytes "n", neighbour)
unfolding program
registered = refl

beat_linked-IsSynced_example :
    (let m' = (beat_of master 9 (bytes "k") (report fresh own).0).1 in
      let r = beat_linked (λ rows. some (beat_of master 9 (bytes "k") rows).0) own 9 fresh in
      IsSynced r.beater.sent m' (bytes "n")
      × ((c : ℕ) (h : Str) (v : Traffic)
          → has_token master (c ∷ h) ≡ true
          → row_of Str-discrete own.traffic (c ∷ h) ≡ some v
          → ltb 0 v.bytes_in || ltb 0 v.bytes_out ≡ true
          → Counts (counters m' (bytes "n") (c ∷ h)) v.bytes_in v.bytes_out))
beat_linked-IsSynced_example =
    beat_linked-IsSynced master own 9 b'n' [] (bytes "k") neighbour fresh registered
      (λ c h i j k e. cc) (refl, tt)

beat_linked-lost_example :
    (let r = beat_linked (λ rows. none) own 9 fresh in
      (r.failed ≡ true) × (r.store ≡ own) × ((report r.beater r.store).0 ≡ []))
beat_linked-lost_example = beat_linked-lost own 9 fresh (refl, tt)
