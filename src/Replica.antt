-- ===== src/Replica.antt =====
-- internal/server/replica.go: a node gives out its database, and another one takes it over with its own
-- local data. The request over HTTP/3 is a parameter, `rt`: what it gets from a node, `none` where there
-- is no link or no answer. A file is the database that it holds.
pub mod Advances
mod Tests
use quic_diver.Base.{
  ℕ, Bool, true, false, not, ltb, if◌then◌else◌, Option, none, some, List, [], ◌∷◌, Str,
}
use quic_diver.Auth.{Session}
use quic_diver.Heartbeat.{replica_allowed}
use quic_diver.Store.{Node, Cluster, Database}
use quic_diver.Store.Carry.{carry_local}
use quic_diver.Store.Epochs.{cluster_state, is_master}
use quic_diver.Store.Nodes.{node_by_id}

-- The answer with its status and the header Qd-Epoch, `none` where it cannot be read. The file is
-- `none` where it did not arrive, is empty, or is refused by `ValidateSnapshot`.
pub record Answer : Type 0 where
  pub accepted : Bool
  pub epoch : Option ℕ
  pub master : Str
  pub file : Option Database

-- The page for strangers, as the other node sees it.
abbrev pub page : Answer
page = record { accepted = false; epoch = none; master = []; file = none }

-- `serveReplica`; `is_get` is whether the method is GET.
unfoldable pub serve_replica : Database → Str → Option Session → Bool → Answer
unfolding replica_allowed cluster_state
serve_replica d node_id s is_get =
    if not (replica_allowed s) then page else if not is_get then page else record {
      accepted = true;
      epoch = some ((cluster_state d).epoch);
      master = elim (cluster_state d).master_id [ [] ↦ node_id | c ∷ m ↦ c ∷ m ];
      file = some d;
    }

pub data PullError : Type 0 where
  unknown_master : PullError
  no_answer : PullError
  refused : PullError
  stale_snapshot : PullError
  bad_snapshot : PullError

-- `got < state.Epoch`, if the header can be read.
unfoldable pub is_stale : Option ℕ → ℕ → Bool
is_stale none epoch = false
is_stale (some got) epoch = ltb got epoch

-- `SwapFile`: the local data is carried over, and the result is the database from then on. What is
-- written to the old database while the local data is copied is left out.
unfoldable pub swap_file : Database → Option Database → Database × Option PullError
unfolding carry_local
swap_file d none = (d, some bad_snapshot)
swap_file d (some file) = (carry_local file d, none)

-- `pull` behind the request, with the database that is current then; `epoch` is the one that was read
-- before the request.
unfoldable pub receive : Database → ℕ → Option Answer → Database × Option PullError
unfolding swap_file is_stale
receive d epoch none = (d, some no_answer)
receive d epoch (some a) =
    if not a.accepted
    then (d, some refused)
    else if is_stale a.epoch epoch
    then (d, some stale_snapshot)
    else swap_file d a.file

-- `pull`, with its error; the master is its own source. `meanwhile` is what the rest of the node does to
-- the database until the answer is there, which takes up to two minutes.
unfoldable pub pull :
    Database → Str → (Database → Database) → (Node → Option Answer) → Database × Option PullError
unfolding receive cluster_state is_master node_by_id
pull d self meanwhile rt =
    let state = cluster_state d in
    if is_master state self then (meanwhile d, none) else (elim (node_by_id d state.master_id) [
      | none ↦ (meanwhile d, some unknown_master)
      | some n ↦ receive (meanwhile d) state.epoch (rt n)
    ])
