-- ===== src/Store/Tokens.antt =====
-- internal/server/db/tokens.go and sqlite.go: the tokens of clients, administrators and nodes, and
-- the kept settings of clients.
use quic_diver.Base.{
  ℕ, Bool, true, false, not, ◌&&◌, ◌==◌, ltb, if◌then◌else◌, Option, none, some, put_row, row_of,
  count_rows, Str, Str-discrete,
}
use quic_diver.Store.{
  StoreError, Result, Role, TokenRow, Database, role_valid, same_text, has_token, token_row_by_hash,
}

-- `TokenInfo`
pub record TokenInfo : Type 0 where
  pub role : Role
  pub label : Str

-- The row of a new token, with the defaults of the schema.
unfoldable pub new_token : ℕ → Role → Str → TokenRow
new_token now role label = record {
  role = role;
  label = label;
  created_at = now;
  updated_at = now;
  revoked = false;
  limit_devices = 0;
  limit_sessions = 0;
  expires_at = 0;
  quota = record { limit = 0; period_days = 0; reset_at = 0; base = 0 };
}

-- The row on a conflict: the limits and the use stay.
unfoldable pub merge_token : ℕ → Role → Str → Option TokenRow → TokenRow
unfolding new_token
merge_token now role label none = new_token now role label
merge_token now role label (some r) = record r {
  role = role;
  label = label;
  updated_at = now;
  revoked = false;
}

-- `PutToken`
unfoldable pub put_token : Database → ℕ → Str → Role → Str → Result Database
unfolding merge_token
put_token d now hash role label =
    if role_valid role
    then Result.done (record d {
      tokens =
          put_row Str-discrete d.tokens hash
            (merge_token now role label (row_of Str-discrete d.tokens hash));
    })
    else Result.failed StoreError.unknown_role

abbrev pub token_info : Option TokenRow → Option TokenInfo
token_info none = none
token_info (some r) = if r.revoked then none else some (record { role = r.role; label = r.label })

-- `Lookup`; `none` is ErrNotFound.
unfoldable pub lookup_token : Database → Str → Option TokenInfo
unfolding token_row_by_hash
lookup_token d hash = token_info (token_row_by_hash d hash)

-- `UPDATE tokens SET … WHERE hash = ?`; no row affected is ErrNotFound.
unfoldable pub update_token : Database → Str → (TokenRow → TokenRow) → Result Database
unfolding token_row_by_hash
update_token d hash f = elim (token_row_by_hash d hash) [
  | none ↦ Result.failed StoreError.not_found
  | some r ↦ Result.done (record d { tokens = put_row Str-discrete d.tokens hash (f r) })
]

-- `Revoke`
unfoldable pub revoke : Database → ℕ → Str → Result Database
unfolding update_token
revoke d now hash = update_token d hash (λ r. record r { revoked = true; updated_at = now })

-- `SetTokenLimits`
unfoldable pub set_token_limits : Database → ℕ → Str → ℕ → ℕ → ℕ → Result Database
unfolding update_token
set_token_limits d now hash devices sessions expires = update_token d hash (λ r. record r {
  limit_devices = devices;
  limit_sessions = sessions;
  expires_at = expires;
  updated_at = now;
})

-- `TokenRow.Expired`
unfoldable pub expired : TokenRow → ℕ → Bool
expired r now = not (r.expires_at == 0) && ltb r.expires_at now

-- `CountByRole` at a role
unfoldable pub count_by_role : Database → Role → ℕ
count_by_role d role = count_rows (λ hash r. not r.revoked && same_text r.role role) d.tokens

-- `PutClientConfig`
unfoldable pub put_client_config : Database → ℕ → Str → Str → Result Database
put_client_config d now hash config =
    if has_token d hash
    then Result.done
        (record d { client_configs = put_row Str-discrete d.client_configs hash (config, now) })
    else Result.failed StoreError.foreign_key

-- `GetClientConfig`
unfoldable pub get_client_config : Database → Str → Option (Str × ℕ)
get_client_config d hash = row_of Str-discrete d.client_configs hash
