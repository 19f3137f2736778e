-- ===== src/Heartbeat.antt =====
-- internal/server/heartbeat.go: a node tells the master that it lives, with the counters of its
-- clients that changed, and hears of a new master. The body and the headers travel over HTTP/3, which
-- is a parameter: `connects` is whether a link to the master comes up, and `trip` what a request gets,
-- `none` for a failure.
pub mod Changed
pub mod Synced
pub mod Lost
mod Tests
use quic_diver.Base.{
  ℕ, Bool, true, false, not, ◌&&◌, ◌||◌, ◌==◌, ltb, if◌then◌else◌, Option, none, some, List, [],
  ◌∷◌, Map, update, Str, Str-discrete, bytes,
}
use quic_diver.Auth.{Session, status}
use quic_diver.Store.{Result, Node, Cluster, Database, role_node, role_admin, same_text}
use quic_diver.Store.Nodes.{node_by_id, node_by_token_hash, touch_node}
use quic_diver.Store.Epochs.{cluster_state, is_master, adopt_cluster}
use quic_diver.Store.Reports.{NodeTraffic, report_node_traffic, local_traffic_report}

-- `replicaAllowed` (replica.go) on a node with a store.
unfoldable pub replica_allowed : Option Session → Bool
unfolding status same_text
replica_allowed none = false
replica_allowed (some s) = elim (status s) [
  | none ↦ false
  | some (role, hash) ↦ same_text role role_node || same_text role role_admin
]

-- The headers Qd-Epoch and Qd-Master of an answer.
pub record Header : Type 0 where
  pub epoch : ℕ
  pub master : Str

-- The database after a call whose error is only logged.
abbrev pub logged : Database → Result Database → Database
logged d (Result.failed e) = d
logged d (Result.done d') = d'

abbrev pub reported_or_not : Database → ℕ → Str → List NodeTraffic → Database
reported_or_not d now id [] = d
reported_or_not d now id (r ∷ rs) = logged d (report_node_traffic d now id (r ∷ rs))

-- What the master does for a node, at the hash of its token; no node of this hash is no error.
unfoldable pub beat_of : Database → ℕ → Str → List NodeTraffic → Option Header × Database
unfolding node_by_token_hash touch_node cluster_state
beat_of d now hash rs = elim (node_by_token_hash d hash) [
  | none ↦ (none, d)
  | some (id, n) ↦
      let d' = reported_or_not (touch_node d now id) now id rs in
      (
        some (record { epoch = (cluster_state d').epoch; master = (cluster_state d').master_id }),
        d',
      )
]

-- `serveHeartbeat`: `none` is the page for strangers.
unfoldable pub serve_heartbeat :
    Database → ℕ → Option Session → List NodeTraffic → Option (Option Header) × Database
unfolding replica_allowed beat_of status
serve_heartbeat d now s rs =
    if replica_allowed s
    then (let (h, d') = beat_of d now (elim s [ none ↦ [] | some t ↦ t.hash ]) rs in (some h, d'))
    else (none, d)

-- `Beater`: the node that the link is held to, and the counters that were sent.
pub record Beater : Type 0 where
  pub held : Option Str
  pub sent : Map Str (ℕ × ℕ)

abbrev pub same_pair : ℕ × ℕ → ℕ × ℕ → Bool
same_pair (i, o) (j, p) = i == j && o == p

-- `was, ok := b.sent[…]; ok && was == cur`
abbrev pub is_sent : Option (ℕ × ℕ) → ℕ × ℕ → Bool
is_sent none cur = false
is_sent (some was) cur = same_pair was cur

abbrev pub bytes_of : NodeTraffic → ℕ × ℕ
bytes_of r = (r.bytes_in, r.bytes_out)

-- What counts as sent behind a row, and whether the row goes out.
abbrev pub sent_after : Map Str (ℕ × ℕ) → NodeTraffic → Map Str (ℕ × ℕ)
sent_after sent r =
    if is_sent (sent r.token_hash) (bytes_of r)
    then sent
    else update Str-discrete sent r.token_hash (bytes_of r)

abbrev pub rows_after : Map Str (ℕ × ℕ) → NodeTraffic → List NodeTraffic → List NodeTraffic
rows_after sent r rs = if is_sent (sent r.token_hash) (bytes_of r) then rs else r ∷ rs

-- The loop of `report`: the rows that changed, and what counts as sent from now on.
unfoldable pub report_changed :
    Map Str (ℕ × ℕ) → List NodeTraffic → List NodeTraffic × Map Str (ℕ × ℕ)
report_changed sent [] = ([], sent)
report_changed sent (r ∷ rs) =
    let (kept, sent') = report_changed (sent_after sent r) rs in (rows_after sent r kept, sent')

-- `report`
unfoldable pub report : Beater → Database → List NodeTraffic × Beater
unfolding report_changed local_traffic_report
report b d =
    let (rows, sent) = report_changed b.sent (local_traffic_report d) in
    (rows, record b { sent = sent })

-- The state behind one beat, what was posted to the master, and whether the beat failed.
pub record Beaten : Type 0 where
  pub store : Database
  pub beater : Beater
  pub posted : Option (List NodeTraffic)
  pub failed : Bool

-- The end of a beat: a later epoch with a name is adopted.
unfoldable pub hear : Database → ℕ → Option Header → Database
unfolding adopt_cluster same_text cluster_state
hear d now none = d
hear d now (some h) =
    if not (same_text h.master []) && ltb (cluster_state d).epoch h.epoch
    then logged d (adopt_cluster d now h.epoch h.master)
    else d

-- A beat over a link that is up.
unfoldable pub beat_linked :
    (List NodeTraffic → Option (Option Header)) → Database → ℕ → Beater → Beaten
unfolding report hear
beat_linked trip d now b =
    let (rows, b') = report b d in
    elim (trip rows) [
      | none ↦ record { store = d; beater = b'; posted = some rows; failed = true }
      | some h ↦ record { store = hear d now h; beater = b'; posted = some rows; failed = false }
    ]

-- `b.master == master.ID` over a link that is held
unfoldable pub is_held : Option Str → Str → Bool
unfolding same_text
is_held none id = false
is_held (some m) id = same_text m id

unfoldable pub beat_master :
    Bool → (List NodeTraffic → Option (Option Header)) → Database → ℕ → Beater → Str → Beaten
unfolding beat_linked is_held
beat_master connects trip d now b id =
    if is_held b.held id
    then beat_linked trip d now b
    else if connects
    then beat_linked trip d now (record b { held = some id })
    else record { store = d; beater = record b { held = none }; posted = none; failed = true }

-- `beat`
unfoldable pub beat :
    Bool → (List NodeTraffic → Option (Option Header)) → Database → ℕ → Str → Beater → Beaten
unfolding beat_master report touch_node cluster_state is_master node_by_id
beat connects trip d now self b =
    let state = cluster_state d in
    if is_master state self
    then (let (rows, b') = report b d in
        record {
          store = touch_node (reported_or_not d now self rows) now self;
          beater = b';
          posted = none;
          failed = false;
        })
    else (elim (node_by_id d state.master_id) [
      | none ↦ record { store = d; beater = b; posted = none; failed = true }
      | some n ↦ beat_master connects trip d now b state.master_id
    ])

-- One round of `Run`: after a failure the link is dropped.
unfoldable pub beat_round :
    Bool → (List NodeTraffic → Option (Option Header)) → Database → ℕ → Str → Beater → Beaten
unfolding beat
beat_round connects trip d now self b =
    let r = beat connects trip d now self b in
    if r.failed then record r { beater = record (r.beater) { held = none } } else r
