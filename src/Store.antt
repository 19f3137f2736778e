-- ===== src/Store.antt =====
-- internal/server/db: the database of a node. The tables are lists of rows with the primary key of
-- the schema; a time is a number of nanoseconds and 0 is the zero time. SQLite runs the statements:
-- the model writes out what each of them does to the rows, foreign keys and unique columns
-- included. Failures of the engine (disk, locks) are left out. The label of a row is a text.
pub mod Tokens
pub mod Addresses
pub mod Devices
pub mod Sessions
pub mod Reports
pub mod Nodes
pub mod Epochs
pub mod Carry
pub mod Quotas
mod Tests
use quic_diver.Base.{
  ◌≡◌, ◌≢◌, arith, ℕ, Bool, true, false, not, ◌||◌, Option, none, some, List, [], ◌∷◌, Rows, row_of,
  Str, Str-discrete, bytes, Addr,
}
use quic_diver.Quota.{Row}

-- The errors of the package; `foreign_key` and `unique` are those of SQLite.
pub data StoreError : Type 0 where
  not_found : StoreError
  unknown_role : StoreError
  bad_pool : StoreError
  pool_exhausted : StoreError
  device_limit : StoreError
  device_revoked : StoreError
  session_limit : StoreError
  stale_epoch : StoreError
  without_node : StoreError
  foreign_key : StoreError
  unique : StoreError

pub data Result (A : Type 0) : Type 0 where
  failed : StoreError → Result A
  done : A → Result A

abbrev pub Role : Type 0
Role = Str

abbrev pub role_user : Role
role_user = bytes "user"

abbrev pub role_admin : Role
role_admin = bytes "admin"

abbrev pub role_node : Role
role_node = bytes "node"

-- `a == b` on strings
unfoldable pub same_text : Str → Str → Bool
unfolding Str-discrete
same_text a b = elim (Str-discrete a b) [ yes e ↦ true | no e ↦ false ]

-- `Role.Valid`
unfoldable pub role_valid : Role → Bool
unfolding same_text
role_valid r = same_text r role_user || (same_text r role_admin || same_text r role_node)

pub record TokenRow : Type 0 where
  pub role : Role
  pub label : Str
  pub created_at : ℕ
  pub updated_at : ℕ
  pub revoked : Bool
  pub limit_devices : ℕ
  pub limit_sessions : ℕ
  pub expires_at : ℕ
  -- limit_traffic, traffic_period, traffic_reset_at, traffic_base
  pub quota : Row

pub record Device : Type 0 where
  pub label : Str
  pub first_seen : ℕ
  pub last_seen : ℕ
  pub last_ip : Str
  pub revoked : Bool

pub record Session : Type 0 where
  pub token_hash : Str
  pub hwid : Str
  pub remote_ip : Str
  pub node : Str
  pub started_at : ℕ
  pub last_seen : ℕ
  pub bytes_in : ℕ
  pub bytes_out : ℕ

pub record Traffic : Type 0 where
  pub bytes_in : ℕ
  pub bytes_out : ℕ
  pub updated : ℕ

pub record Node : Type 0 where
  pub label : Str
  pub category : Str
  pub tags : List Str
  pub addr : Str
  pub sni : Str
  pub token_hash : Str
  pub enabled : Bool
  pub last_seen : ℕ
  pub updated_at : ℕ

pub record Cluster : Type 0 where
  pub epoch : ℕ
  pub master_id : Str
  pub updated_at : ℕ

pub record Database : Type 0 where
  pub tokens : Rows Str TokenRow
  pub assignments : Rows Str Addr
  pub devices : Rows (Str × Str) Device
  pub sessions : Rows Str Session
  pub traffic : Rows Str Traffic
  pub node_traffic : Rows (Str × Str) Traffic
  pub nodes : Rows Str Node
  pub cluster : Option Cluster
  pub client_configs : Rows Str (Str × ℕ)

abbrev pub empty_database : Database
empty_database = record {
  tokens = [];
  assignments = [];
  devices = [];
  sessions = [];
  traffic = [];
  node_traffic = [];
  nodes = [];
  cluster = none;
  client_configs = [];
}

-- The key (token_hash, hwid), and (node_id, token_hash).
unfoldable pub Pair-discrete : Discrete (Str × Str)
unfolding Str-discrete
Pair-discrete = hlevel Str-discrete

-- `TokenRowByHash`; `none` is ErrNotFound.
unfoldable pub token_row_by_hash : Database → Str → Option TokenRow
token_row_by_hash d hash = row_of Str-discrete d.tokens hash

-- `REFERENCES tokens(hash)`
unfoldable pub has_token : Database → Str → Bool
unfolding token_row_by_hash
has_token d hash = elim (token_row_by_hash d hash) [ none ↦ false | some r ↦ true ]

pub same_text_refl : (s : Str) → same_text s s ≡ true
unfolding same_text
same_text_refl s = ground arith

pub same_text-eq : (s t : Str) → same_text s t ≡ true → s ≡ t
unfolding same_text
same_text-eq s t h = ground arith

pub same_text-ne : (s t : Str) → s ≢ t → same_text s t ≡ false
unfolding same_text
same_text-ne s t h = ground arith

-- What a row counts.
abbrev pub share : (Traffic → ℕ) → Option Traffic → ℕ
share f none = 0
share f (some t) = f t
