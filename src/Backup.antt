-- ===== src/Backup.antt =====
-- internal/server/client_config.go: the settings that a client keeps at a node with a store.
-- `hash` is the hash of a token. JSON is not modelled, nor a body that cannot be read.
pub mod Kept
mod Tests
use quic_diver.Base.{ℕ, Option, none, some, [], ◌∷◌, Str}
use quic_diver.Auth.{Session, status, token_from_request}
use quic_diver.Store.{Result, Database}
use quic_diver.Store.Tokens.{lookup_token, put_client_config, get_client_config}

pub data Method : Type 0 where
  asks : Method
  sends : Str → Method
  other : Method

-- What the client gets: the page for strangers, an error, or an answer.
pub data Reply : Type 0 where
  strangers_page : Reply
  bad_request : Reply
  no_method : Reply
  internal_error : Reply
  no_backup : Reply
  backup : Str → ℕ → Reply
  saved : Reply

-- The hash of a session that is authorized, or the empty text.
unfoldable pub session_owner : Option Session → Str
unfolding status
session_owner none = []
session_owner (some s) = elim (status s) [ none ↦ [] | some (role, h) ↦ h ]

-- The hash of the token of the request, if it is one of the table, or the empty text.
unfoldable pub token_owner : (Str → Str) → Database → Str → Str
unfolding token_from_request lookup_token
token_owner hash d header = elim (token_from_request header) [
  | [] ↦ []
  | c ∷ token ↦ elim (lookup_token d (hash (c ∷ token))) [
    | none ↦ []
    | some info ↦ hash (c ∷ token)
  ]
]

abbrev pub first_owner : Str → Str → Str
first_owner [] h = h
first_owner (c ∷ s) h = c ∷ s

-- Whose backup a request is about; it is empty for a stranger.
unfoldable pub owner_of : (Str → Str) → Database → Option Session → Str → Str
unfolding session_owner token_owner
owner_of hash d s header = first_owner (session_owner s) (token_owner hash d header)

abbrev pub backup_reply : Option (Str × ℕ) → Reply
backup_reply none = no_backup
backup_reply (some (config, at)) = backup config at

abbrev pub saved_reply : Database → Result Database → Reply × Database
saved_reply d (Result.failed e) = (internal_error, d)
saved_reply d (Result.done d') = (saved, d')

abbrev pub send_backup : Database → ℕ → Str → Str → Reply × Database
send_backup d now h [] = (bad_request, d)
send_backup d now h (c ∷ body) = saved_reply d (put_client_config d now h (c ∷ body))

-- The handler for an owner.
abbrev pub serve_owner : Database → ℕ → Str → Method → Reply × Database
serve_owner d now [] m = (strangers_page, d)
serve_owner d now (c ∷ h) asks = (backup_reply (get_client_config d (c ∷ h)), d)
serve_owner d now (c ∷ h) (sends body) = send_backup d now (c ∷ h) body
serve_owner d now (c ∷ h) other = (no_method, d)

-- `serveClientConfigBackup`
unfoldable pub serve_backup :
    (Str → Str) → Database → ℕ → Option Session → Str → Method → Reply × Database
unfolding owner_of put_client_config get_client_config
serve_backup hash d now s header m = serve_owner d now (owner_of hash d s header) m
