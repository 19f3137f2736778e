-- ===== src/Admission/Tests.antt =====
-- A node with one client and one neighbour, and the theorems about admission there.
use quic_diver.Base.{◌≡◌, refl, true, false, none, some, List, [], ◌∷◌, Str, bytes, v4}
use quic_diver.Auth.{new_session, status}
use quic_diver.Store.{TokenRow, Database, empty_database, role_user, token_row_by_hash}
use quic_diver.Store.Tokens.{expired}
use quic_diver.Chain
use quic_diver.Chain.{missing}
use quic_diver.Admission.{
  authorize, quota_exceeded, serve, serve_all, Config, Connection, Request, asks_auth, asks_tunnel,
  asks_connect, asks_service, no_content, Response,
}
use quic_diver.Admission.Granted.{Grants, authorize-Grants, IsExpired, IsExpired-authorize}

program : Unit {0}
unfolding authorize quota_exceeded serve_all serve expired status
program = tt

-- The hash of a token is the token here.
abbrev same : Str → Str
same t = t

abbrev key : Str
key = bytes "qd_0123456789abcdefgh"

abbrev row : TokenRow
row = record {
  role = role_user;
  label = [];
  created_at = 1;
  updated_at = 1;
  revoked = false;
  limit_devices = 0;
  limit_sessions = 0;
  expires_at = 50;
  quota = record { limit = 0; period_days = 0; reset_at = 0; base = 0 };
}

abbrev base : Database
base = record empty_database { tokens = (key, row) ∷ [] }

abbrev cfg : Config
cfg = record { assign = []; pool = record { addr = v4 0x0a070000; bits = 24 } }

abbrev chain : Chain.Config
chain = record { node_id = bytes "m"; pick_node = none; has_link = λ next. false }

abbrev fresh : Connection
fresh = record { store = some base; session = some new_session }

-- With its token the client gets a tunnel with the first address of the pool; without, the page.
let_in :
    serve_all same cfg chain fresh (asks_auth 5 key [] ∷ asks_tunnel true ∷ [])
    ≡ no_content ∷ Response.tunnel (record { addr = v4 0x0a070002; bits = 32 } ∷ []) ∷ []
unfolding program
let_in = refl

authorize-Grants_example : Grants base 60 new_session key (authorize base 60 new_session key)
authorize-Grants_example = authorize-Grants base 60 new_session key

row-IsExpired : IsExpired base 60 key row
unfolding program token_row_by_hash
row-IsExpired = (refl, refl, refl, refl)

IsExpired-authorize_example :
    ((authorize base 60 new_session key).0 ≡ true)
    × (status (authorize base 60 new_session key).1 ≡ some (role_user, key))
IsExpired-authorize_example = IsExpired-authorize base 60 new_session key row row-IsExpired

abbrev asked : List Request
asked =
    asks_tunnel true
    ∷ asks_connect true (record { hop_header = missing; label = [] })
    ∷ asks_auth 5 (bytes "hello") []
    ∷ asks_service
    ∷ []
