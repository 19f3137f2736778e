-- ===== src/Backup/Tests.antt =====
-- A client that sends its settings over an authorized session.
use quic_diver.Base.{
  Str-discrete, ◌≡◌, ◌≢◌, refl, true, false, some, [], ◌∷◌, ℕ, Option, Str, bytes,
}
use quic_diver.Auth.{Session, new_session, mark_trusted}
use quic_diver.Store.{TokenRow, Database, empty_database, role_user, has_token}
use quic_diver.Backup.{owner_of, serve_backup, asks, sends, backup, saved}
use quic_diver.Backup.Kept.{serve_backup-back}

program : Unit {0}
unfolding owner_of serve_backup mark_trusted has_token
program = tt

abbrev row : TokenRow
row = record {
  role = role_user;
  label = [];
  created_at = 1;
  updated_at = 1;
  revoked = false;
  limit_devices = 0;
  limit_sessions = 0;
  expires_at = 0;
  quota = record { limit = 0; period_days = 0; reset_at = 0; base = 0 };
}

abbrev base : Database
base = record empty_database { tokens = (bytes "a", row) ∷ [] }

abbrev same : Str → Str
same t = t

abbrev visit : Option Session
visit = some (mark_trusted new_session role_user (bytes "a"))

own : owner_of same base visit [] ≡ bytes "a"
unfolding program
own = refl

known : has_token base (bytes "a") ≡ true
unfolding program Str-discrete
known = refl

serve_backup-back_example :
    (let (r, d') = serve_backup same base 5 visit [] (sends (bytes "{}")) in
      (r ≡ saved)
      × ((s' : Option Session) (header' : Str) (later : ℕ)
          → owner_of same base s' header' ≡ bytes "a"
          → (serve_backup same d' later s' header' asks).0 ≡ backup (bytes "{}") 5)
      × ((s' : Option Session) (header' : Str) (later : ℕ)
          → owner_of same base s' header' ≢ bytes "a"
          → (serve_backup same d' later s' header' asks).0
            ≡ (serve_backup same base later s' header' asks).0))
serve_backup-back_example =
    serve_backup-back same base 5 b'a' [] b'{' (bytes "}") visit [] own known
