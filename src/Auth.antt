-- ===== src/Auth.antt =====
-- internal/server/auth/session.go and token.go: the trust of one QUIC session, and the form of a token.
-- The hash of a token, SHA-256 in hexadecimal, is a parameter of those who use it.
use quic_diver.Base.{
  ◌+◌, Bool, true, false, ◌&&◌, ltb, if◌then◌else◌, Option, none, some, [], Str, bytes, length,
  has_prefix,
}
use quic_diver.Store.{Role}

pub record Session : Type 0 where
  pub role : Role
  pub hash : Str
  pub hwid : Str
  pub ready : Bool

-- `&Session{}`, as `NewSessionContext` makes it for a new connection.
abbrev pub new_session : Session
new_session = record { role = []; hash = []; hwid = []; ready = false }

-- `Authorize`
unfoldable pub mark_trusted : Session → Role → Str → Session
mark_trusted s role hash = record s { role = role; hash = hash; ready = true }

-- `SetHWID`
unfoldable pub set_hwid : Session → Str → Session
set_hwid s hwid = record s { hwid = hwid }

-- `Status`; `none` where the session is not ready.
unfoldable pub status : Session → Option (Role × Str)
status s = if s.ready then some (s.role, s.hash) else none

-- `Authorized`
unfoldable pub authorized : Session → Bool
unfolding status
authorized s = elim (status s) [ none ↦ false | some r ↦ true ]

abbrev pub token_prefix : Str
token_prefix = bytes "qd_"

-- `LooksLikeToken`
unfoldable pub looks_like_token : Str → Bool
looks_like_token s = has_prefix s token_prefix && ltb (length token_prefix + 16) (length s)

-- `TokenFromRequest` on the header; an absent header is the empty text.
unfoldable pub token_from_request : Str → Str
unfolding looks_like_token
token_from_request header = if looks_like_token header then header else []
