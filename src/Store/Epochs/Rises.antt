-- ===== src/Store/Epochs/Rises.antt =====
-- The epochs of a node's database along any sequence of promotions, adoptions and installations, which
-- may overlap: each reads the state in one statement and writes it in another.
use quic_diver.Base.{
  ℕ, ◌+◌, ◌<◌, arith, ◌≡◌, refl, sym, ap, subst, ◌⊎◌, inl, inr, some, List, [], ◌∷◌, All, In, Str,
}
use quic_diver.Store.{Node, Cluster, Database}
use quic_diver.Store.Nodes.{put_node}
use quic_diver.Store.Epochs.{cluster_state, write_cluster, promotion, adoption}

-- The database, with the states that have been read since the start. A statement may use any of them,
-- however old it is: `reads` is the first one of `Promote`, `AdoptCluster` and `BootstrapMaster`, the
-- others write. `BootstrapMaster` also enters the node in the registry, and goes on as `AdoptCluster`.
pub data Statement : Database → List Cluster → Database → List Cluster → Type 0 where
  reads : {d : Database} {read : List Cluster} → Statement d read d (cluster_state d ∷ read)
  promotes :
      {d : Database} {read : List Cluster} (cur : Cluster) (now : ℕ) (node : Str)
      → In cur read
      → Statement d read (write_cluster d (promotion cur now node)) read
  adopts :
      {d : Database} {read : List Cluster} (cur c : Cluster) (now epoch : ℕ) (master : Str)
      → In cur read
      → adoption cur now epoch master ≡ some c
      → Statement d read (write_cluster d c) read
  registers :
      {d : Database} {read : List Cluster} (now : ℕ) (id : Str) (n : Node)
      → Statement d read (put_node d now id n) read

pub data Statements : Database → List Cluster → Database → List Cluster → Type 0 where
  halt : {d : Database} {read : List Cluster} → Statements d read d read
  next :
      {d e f : Database} {read read' read'' : List Cluster}
      → Statement d read e read'
      → Statements e read' f read''
      → Statements d read f read''

-- The state is the same, or of a higher epoch.
abbrev pub RisesTo : Cluster → Cluster → Type 0
RisesTo c c' = (c' ≡ c) ⊎ (c.epoch < c'.epoch)

abbrev pub Rises : Database → Database → Type 0
Rises d d' = RisesTo (cluster_state d) (cluster_state d')

-- What was read is no lower, so that what is written is higher.
abbrev Above : Cluster → Database → List Cluster → Type 0
Above c d read = RisesTo c (cluster_state d) × All (RisesTo c) read

All-In :
    (c cur : Cluster) (read : List Cluster) → All (RisesTo c) read → In cur read → RisesTo c cur
All-In c cur [] h i = elim i [ ]
All-In c cur (r ∷ read) (p, h) (inl e) = subst (RisesTo c) (sym e) p
All-In c cur (r ∷ read) (p, h) (inr i) = All-In c cur read h i

promotion-above :
    (c cur : Cluster) (now : ℕ) (node : Str)
    → RisesTo c cur
    → c.epoch < (promotion cur now node).epoch
unfolding promotion
promotion-above c cur now node (inl e) = rw e (omega arith)
promotion-above c cur now node (inr h) = omega arith

adoption-above :
    (c cur new : Cluster) (now epoch : ℕ) (master : Str)
    → RisesTo c cur
    → adoption cur now epoch master ≡ some new
    → c.epoch < new.epoch
unfolding adoption
adoption-above c cur new now epoch master (inl e) h = ground (arith, ap Cluster.epoch e)
adoption-above c cur new now epoch master (inr k) h = ground arith

Statement-Above :
    (c : Cluster) (d d' : Database) (read read' : List Cluster)
    → Statement d read d' read'
    → Above c d read
    → Above c d' read'
unfolding cluster_state put_node
Statement-Above c d d' read read' Statement.reads (p, h) = (p, (p, h))
Statement-Above c d d' read read' (Statement.promotes cur now node i) (p, h) =
    (inr (promotion-above c cur now node (All-In c cur read h i)), h)
Statement-Above c d d' read read' (Statement.adopts cur new now epoch master i e) (p, h) =
    (inr (adoption-above c cur new now epoch master (All-In c cur read h i) e), h)
Statement-Above c d d' read read' (Statement.registers now id n) (p, h) = (p, h)

Statements-Above :
    (c : Cluster) (d d' : Database) (read read' : List Cluster)
    → Statements d read d' read'
    → Above c d read
    → Above c d' read'
Statements-Above c d d' read read' Statements.halt h = h
Statements-Above c d d' read read' (Statements.next {e = e} {read' = r} s ss) h =
    Statements-Above c e d' r read' ss (Statement-Above c d e read r s h)

-- Whatever is promoted, heard of or installed from a moment on at which no such change was under way,
-- and however the statements of the changes overlap: the state of the cluster is the one of that moment
-- or of a strictly higher epoch. So a master of an older epoch than at that moment does not win the node.
pub Statements-Rises :
    (d d' : Database) (read : List Cluster) → Statements d [] d' read → Rises d d'
Statements-Rises d d' read s = (Statements-Above (cluster_state d) d d' [] read s (inl refl, tt)).0

-- `Promote` has read the state, and before it writes the node takes over a later state of the network:
-- then the epoch falls, and the master is the one of the lower epoch.
pub promote_overtaken :
    (d : Database) (c : Cluster) (now : ℕ) (node : Str)
    → (cluster_state d).epoch + 1 < c.epoch
    → (let d' = write_cluster d c in
        let d'' = write_cluster d' (promotion (cluster_state d) now node) in
        Statements d [] d'' (cluster_state d ∷ cluster_state d ∷ [])
        × ((cluster_state d'').epoch < (cluster_state d').epoch)
        × ((cluster_state d'').master_id ≡ node))
unfolding cluster_state promotion adoption
promote_overtaken d c now node h = (
  Statements.next Statement.reads (
      Statements.next Statement.reads (
        Statements.next
          (Statement.adopts (cluster_state d) c c.updated_at c.epoch c.master_id (inl refl)
            (ground arith))
          (Statements.next (Statement.promotes (cluster_state d) now node (inr (inl refl)))
            Statements.halt))),
  omega arith,
  refl,
)
