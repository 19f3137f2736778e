-- ===== src/Store/Epochs.antt =====
-- internal/server/db/cluster.go: which node is the master, and of which epoch.
pub mod Rises
use quic_diver.Base.{
  ℕ, ◌+◌, Bool, true, false, ◌||◌, ltb, leb, if◌then◌else◌, Option, none, some, [], Str,
}
use quic_diver.Store.{StoreError, Result, Node, Cluster, Database, same_text}
use quic_diver.Store.Nodes.{put_node}

-- `ClusterState`: an empty table is a node alone, in epoch 0.
unfoldable pub cluster_state : Database → Cluster
cluster_state d = elim d.cluster [
  | none ↦ record { epoch = 0; master_id = []; updated_at = 0 }
  | some c ↦ c
]

-- `INSERT INTO cluster … ON CONFLICT DO UPDATE`
abbrev pub write_cluster : Database → Cluster → Database
write_cluster d c = record d { cluster = some c }

-- What `Promote` writes after it has read the state `cur`, in a statement of its own.
unfoldable pub promotion : Cluster → ℕ → Str → Cluster
promotion cur now node = record { epoch = cur.epoch + 1; master_id = node; updated_at = now }

-- `Promote` with nothing between its two statements.
unfoldable pub promote : Database → ℕ → Str → Database
unfolding cluster_state promotion
promote d now node = write_cluster d (promotion (cluster_state d) now node)

-- What `AdoptCluster` writes after it has read the state `cur`: only a higher epoch.
unfoldable pub adoption : Cluster → ℕ → ℕ → Str → Option Cluster
adoption cur now epoch master =
    if leb epoch cur.epoch
    then none
    else some (record { epoch = epoch; master_id = master; updated_at = now })

-- `AdoptCluster` with nothing between its two statements.
unfoldable pub adopt_cluster : Database → ℕ → ℕ → Str → Result Database
unfolding cluster_state adoption
adopt_cluster d now epoch master = elim (adoption (cluster_state d) now epoch master) [
  | none ↦ Result.failed StoreError.stale_epoch
  | some c ↦ Result.done (write_cluster d c)
]

-- `BootstrapMaster` with nothing between its statements, and with whether it was needed.
unfoldable pub bootstrap_master : Database → ℕ → Str → Node → Result (Bool × Database)
unfolding cluster_state adopt_cluster
bootstrap_master d now id n =
    if ltb 0 (cluster_state d).epoch
    then Result.done (false, d)
    else elim (adopt_cluster (put_node d now id n) now 1 id) [
      | Result.failed e ↦ Result.failed e
      | Result.done d' ↦ Result.done (true, d')
    ]

-- `IsMaster`
unfoldable pub is_master : Cluster → Str → Bool
unfolding same_text
is_master c node = same_text c.master_id [] || same_text c.master_id node
