-- ===== src/Replica/Advances.antt =====
-- Along the pulls of a node nothing falls back.
use quic_diver.Base.{
  ℕ, ◌≤◌, arith, ◌≡◌, refl, ap, ◌⊎◌, inl, inr, Bool, true, false, not, if-cases, Option, none, some,
  IsTable, row_of, Str, Str-discrete,
}
use quic_diver.Auth.{Session}
use quic_diver.Store.{Node, Traffic, Database, has_token, share}
use quic_diver.Heartbeat.{replica_allowed}
use quic_diver.Store.Carry.{carry_local}
use quic_diver.Store.Carry.Merged.{CounterCarried, carry_local-Carries}
use quic_diver.Store.Epochs.{cluster_state, is_master}
use quic_diver.Store.Nodes.{node_by_id}
use quic_diver.Replica.{
  Answer, PullError, serve_replica, is_stale, swap_file, receive, pull, unknown_master,
}

-- An answer with a file tells the epoch of the file.
abbrev pub IsHonest : Option Answer → Type 0
IsHonest none = Unit
IsHonest (some a) = (f : Database) → a.file ≡ some f → a.epoch ≡ some ((cluster_state f).epoch)

epoch_of : Option Database → Option ℕ
epoch_of none = none
epoch_of (some f) = some ((cluster_state f).epoch)

pub serve_replica-IsHonest :
    (d : Database) (id : Str) (s : Option Session) (is_get : Bool)
    → IsHonest (some (serve_replica d id s is_get))
unfolding serve_replica epoch_of
serve_replica-IsHonest d id s is_get =
    if-cases (λ a. IsHonest (some a)) (not (replica_allowed s)) _ _ (λ k f e. cc)
      (λ k.
        if-cases (λ a. IsHonest (some a)) (not is_get) _ _ (λ l f e. cc)
          (λ l f e. ap (λ (o : Option Database). epoch_of o) e))

-- No counter of a client that the new database knows has fallen.
abbrev pub KeepsCounters : Database → Database → Type 0
KeepsCounters d d' =
    (hash : Str)
    → has_token d' hash ≡ true
    → (share Traffic.bytes_in (row_of Str-discrete d.traffic hash)
        ≤ share Traffic.bytes_in (row_of Str-discrete d'.traffic hash))
      × (share Traffic.bytes_out (row_of Str-discrete d.traffic hash)
          ≤ share Traffic.bytes_out (row_of Str-discrete d'.traffic hash))

-- From a database `m` either nothing changes, or there is no error and the epoch is at least `epoch`;
-- and the counters are kept.
abbrev pub Advances : ℕ → Database → Database × Option PullError → Type 0
Advances epoch m (d', e) =
    ((d' ≡ m) ⊎ ((e ≡ none) × (epoch ≤ (cluster_state d').epoch))) × KeepsCounters m d'

stays-Advances : (epoch : ℕ) (m : Database) (e : Option PullError) → Advances epoch m (m, e)
stays-Advances epoch m e = (inl refl, λ hash k. (omega arith, omega arith))

carried-le :
    (w v o : Option Traffic)
    → CounterCarried w v o
    → (share Traffic.bytes_in v ≤ share Traffic.bytes_in o)
      × (share Traffic.bytes_out v ≤ share Traffic.bytes_out o)
carried-le w none o h = (omega arith, omega arith)
carried-le none (some v) o h = rw h (omega arith, omega arith)
carried-le (some w) (some v) o (r, e, (a, b, c), (f, g, k)) = rw e (b, g)

carry-Advances :
    (epoch : ℕ) (file m : Database)
    → IsTable Str-discrete m.traffic
    → epoch ≤ (cluster_state file).epoch
    → Advances epoch m (carry_local file m, none)
unfolding cluster_state carry_local has_token
carry-Advances epoch file m u h = (
  inr (refl, h),
  λ hash k.
      carried-le (row_of Str-discrete file.traffic hash) (row_of Str-discrete m.traffic hash) _
        ((carry_local-Carries file m u).8 hash k),
)

not_stale : (o : Option ℕ) (n epoch : ℕ) → o ≡ some n → is_stale o epoch ≡ false → epoch ≤ n
unfolding is_stale
not_stale none n epoch e h = ground arith
not_stale (some m) n epoch e h = ground arith

swap-Advances :
    (m : Database) (epoch : ℕ) (a : Answer)
    → IsTable Str-discrete m.traffic
    → IsHonest (some a)
    → is_stale a.epoch epoch ≡ false
    → Advances epoch m (swap_file m a.file)
unfolding swap_file
swap-Advances m epoch a u h l = at a.file refl
  where
    at : (o : Option Database) → a.file ≡ o → Advances epoch m (swap_file m o)
    at none e = stays-Advances epoch m _
    at (some f) e =
        carry-Advances epoch f m u (not_stale a.epoch (cluster_state f).epoch epoch (h f e) l)

receive-Advances :
    (m : Database) (epoch : ℕ) (o : Option Answer)
    → IsTable Str-discrete m.traffic
    → IsHonest o
    → Advances epoch m (receive m epoch o)
unfolding receive
receive-Advances m epoch none u h = stays-Advances epoch m _
receive-Advances m epoch (some a) u h =
    if-cases (Advances epoch m) (not a.accepted) _ _ (λ k. stays-Advances epoch m _)
      (λ k.
        if-cases (Advances epoch m) (is_stale a.epoch epoch) _ _ (λ l. stays-Advances epoch m _)
          (λ l. swap-Advances m epoch a u h l))

-- Whatever the node does with its database while a pull waits for the answer, and whatever the answer
-- is, if one with a file tells the epoch of the file: a pull either leaves the database as it is then,
-- and does so whenever it fails, or brings in an epoch that is at least the one it began with. Of no
-- client that the new database knows a counter falls.
pub pull-Advances :
    (d : Database) (self : Str) (meanwhile : Database → Database) (rt : Node → Option Answer)
    → IsTable Str-discrete (meanwhile d).traffic
    → ((n : Node) → IsHonest (rt n))
    → Advances (cluster_state d).epoch (meanwhile d) (pull d self meanwhile rt)
unfolding pull
pull-Advances d self meanwhile rt u h =
    let epoch = (cluster_state d).epoch in
    if-cases (Advances epoch (meanwhile d)) (is_master (cluster_state d) self) _ _
      (λ k. stays-Advances epoch (meanwhile d) _)
      (λ k. at (node_by_id d (cluster_state d).master_id))
  where
    at :
        (o : Option Node)
        → Advances (cluster_state d).epoch (meanwhile d) (elim o [
          | none ↦ (meanwhile d, some unknown_master)
          | some n ↦ receive (meanwhile d) (cluster_state d).epoch (rt n)
        ])
    at none = stays-Advances (cluster_state d).epoch (meanwhile d) _
    at (some n) = receive-Advances (meanwhile d) (cluster_state d).epoch (rt n) u (h n)
