-- ===== src/Replica/Tests.antt =====
-- A node that follows its master, and the theorem about its pulls.
use quic_diver.Base.{◌≡◌, refl, true, false, none, some, [], ◌∷◌, Option, Str, bytes}
use quic_diver.Auth.{Session}
use quic_diver.Store.{
  TokenRow, Node, Database, empty_database, role_user, role_node, same_text, has_token,
}
use quic_diver.Store.Epochs.{cluster_state}
use quic_diver.Replica.{Answer, serve_replica, pull}
use quic_diver.Replica.Advances.{Advances, pull-Advances, serve_replica-IsHonest}

program : Unit {0}
unfolding pull serve_replica same_text has_token
program = tt

abbrev alice : Str
alice = bytes "a"

abbrev row : TokenRow
row = record {
  role = role_user;
  label = [];
  created_at = 1;
  updated_at = 1;
  revoked = false;
  limit_devices = 0;
  limit_sessions = 0;
  expires_at = 0;
  quota = record { limit = 0; period_days = 0; reset_at = 0; base = 0 };
}

abbrev master_row : Node
master_row = record {
  label = [];
  category = [];
  tags = [];
  addr = [];
  sni = [];
  token_hash = [];
  enabled = true;
  last_seen = 0;
  updated_at = 0;
}

abbrev own : Database
own = record empty_database {
  traffic = (alice, record { bytes_in = 10; bytes_out = 20; updated = 1 }) ∷ [];
  nodes = (bytes "m", master_row) ∷ [];
  cluster = some (record { epoch = 2; master_id = bytes "m"; updated_at = 0 });
}

-- The master of a later epoch knows the client, and has counted nothing.
abbrev master : Database
master = record own {
  tokens = (alice, row) ∷ [];
  traffic = [];
  cluster = some (record { epoch = 3; master_id = bytes "m"; updated_at = 0 });
}

abbrev visit : Session
visit = record { role = role_node; hash = bytes "k"; hwid = []; ready = true }

-- What the master answers to a node.
abbrev answer : Node → Option Answer
answer n = some (serve_replica master (bytes "m") (some visit) true)

-- While the pull waits, the node counts more.
abbrev counts_more : Database → Database
counts_more d = record d {
  traffic = (alice, record { bytes_in = 15; bytes_out = 20; updated = 4 }) ∷ [];
}

pulled :
    pull own (bytes "n") counts_more answer
    ≡ (record master { traffic = (counts_more own).traffic }, none)
unfolding program
pulled = refl

-- While the pull waits, the node hears of a later epoch: the snapshot of the old master still comes in.
abbrev hears_more : Database → Database
hears_more d = record d {
  cluster = some (record { epoch = 9; master_id = bytes "x"; updated_at = 0 });
}

overtaken : (pull own (bytes "n") hears_more answer).0.cluster ≡ master.cluster
unfolding program
overtaken = refl

pull-Advances_example : Advances 2 (counts_more own) (pull own (bytes "n") counts_more answer)
unfolding program cluster_state
pull-Advances_example =
    pull-Advances own (bytes "n") counts_more answer (refl, tt)
      (λ n. serve_replica-IsHonest master (bytes "m") (some visit) true)
