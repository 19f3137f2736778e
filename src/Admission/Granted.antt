-- ===== src/Admission/Granted.antt =====
-- Who is let in.
use quic_diver.Base.{
  ℕ, arith, ◌≡◌, refl, ap, subst, ◌⊎◌, inl, inr, Bool, true, false, ◌&&◌, if-cases, Bool-cases,
  Option, none, some, [], ◌∷◌, Rows, Str,
}
use quic_diver.Auth.{Session, status, mark_trusted}
use quic_diver.Store.{
  Role, role_user, role_node, TokenRow, Node, Database, token_row_by_hash, same_text, same_text-eq,
  same_text_refl,
}
use quic_diver.Store.Tokens.{TokenInfo, token_info, lookup_token, expired}
use quic_diver.Store.Nodes.{node_by_token_hash, find_enabled, touch_node}
use quic_diver.Admission.{quota_exceeded, authorize_token, authorize_node, authorize}

-- The token of the table is not revoked and has the role.
abbrev pub IsLive : Database → Str → Role → Type 0
IsLive d hash role =
    (r : TokenRow) × (token_row_by_hash d hash ≡ some r) × (r.revoked ≡ false) × (r.role ≡ role)

-- The registry has an enabled node with this hash.
abbrev pub IsNeighbour : Database → Str → Type 0
IsNeighbour d hash =
    (id : Str) × (n : Node) × (node_by_token_hash d hash ≡ some (id, n))
    × (n.token_hash ≡ hash)
    × (n.enabled ≡ true)

-- What `authorize` may answer.
abbrev pub Grants : Database → ℕ → Session → Str → Bool × Session × Database → Type 0
Grants d now s hash (true, s', d') =
    (role : Role) × (status s' ≡ some (role, hash))
    × ((IsLive d hash role × (role ≡ role_user → (quota_exceeded d now hash).0 ≡ false))
        ⊎ (lookup_token d hash ≡ none) × IsNeighbour d hash × (role ≡ role_node))
Grants d now s hash (false, s', d') =
    (s' ≡ s)
    × ((IsLive d hash role_user × ((quota_exceeded d now hash).0 ≡ true))
        ⊎ (lookup_token d hash ≡ none) × (node_by_token_hash d hash ≡ none))

lookup-IsLive :
    (d : Database) (hash : Str) (info : TokenInfo)
    → lookup_token d hash ≡ some info
    → IsLive d hash info.role
unfolding lookup_token
lookup-IsLive d hash info h = at (token_row_by_hash d hash) refl h
  where
    at :
        (o : Option TokenRow)
        → token_row_by_hash d hash ≡ o
        → token_info o ≡ some info
        → IsLive d hash info.role
    at none e f = ground arith
    at (some r) e f = elim (Bool-cases r.revoked) [
      | inl gone ↦ ground arith
      | inr live ↦ (r, e, live, ground arith)
    ]

find-IsNeighbour :
    (rs : Rows Str Node) (hash id : Str) (n : Node)
    → find_enabled rs hash ≡ some (id, n)
    → (n.token_hash ≡ hash) × (n.enabled ≡ true)
unfolding find_enabled
find-IsNeighbour [] hash id n h = ground arith
find-IsNeighbour ((j, m) ∷ rs) hash id n h =
    elim (Bool-cases (same_text m.token_hash hash && m.enabled)) [
      | inl e ↦ (ground (arith, same_text-eq m.token_hash hash), ground arith)
      | inr e ↦ find-IsNeighbour rs hash id n (ground arith)
    ]

module _ (d : Database) (now : ℕ) (s : Session) (hash : Str) where
  authorize_token-Grants :
      (info : TokenInfo)
      → lookup_token d hash ≡ some info
      → Grants d now s hash (authorize_token d now s hash info)
  unfolding authorize_token mark_trusted status
  authorize_token-Grants info h =
      if-cases (Grants d now s hash) (same_text info.role role_user) _ _
        (λ user.
          if-cases (Grants d now s hash) (quota_exceeded d now hash).0 _ _
            (λ over. (
              refl,
              inl (
                subst (IsLive d hash) (same_text-eq info.role role_user user)
                    (lookup-IsLive d hash info h),
                over,
              ),
            ))
            (λ fits. (info.role, refl, inl (lookup-IsLive d hash info h, λ e. fits))))
        (λ other. (
          info.role,
          refl,
          inl (
            lookup-IsLive d hash info h,
            λ e. cc (ap (λ (z : Str). same_text z role_user) e, same_text_refl role_user),
          ),
        ))

  authorize_node-Grants :
      lookup_token d hash ≡ none → Grants d now s hash (authorize_node d now s hash)
  unfolding authorize_node mark_trusted status node_by_token_hash
  authorize_node-Grants h = at (node_by_token_hash d hash) refl
    where
      at :
          (o : Option (Str × Node))
          → node_by_token_hash d hash ≡ o
          → Grants d now s hash (elim o [
            | none ↦ (false, s, d)
            | some (id, n) ↦ (true, mark_trusted s role_node hash, touch_node d now id)
          ])
      at none e = (refl, inr (h, e))
      at (some (id, n)) e =
          let (same, on) = find-IsNeighbour d.nodes hash id n e in
          (role_node, refl, inr (h, (id, n, e, same, on), refl))

  -- `authorize` lets in exactly the holder of a live token of the table, a client only within its
  -- quota, and a neighbour of the registry that is enabled, as a node; the session then has this role
  -- and hash. It refuses a client over its quota and a hash that neither the table nor the registry
  -- knows, and then leaves the session as it is.
  pub authorize-Grants : Grants d now s hash (authorize d now s hash)
  unfolding authorize
  authorize-Grants = at (lookup_token d hash) refl
    where
      at :
          (o : Option TokenInfo)
          → lookup_token d hash ≡ o
          → Grants d now s hash (elim o [
            | none ↦ authorize_node d now s hash
            | some info ↦ authorize_token d now s hash info
          ])
      at none e = authorize_node-Grants e
      at (some info) e = authorize_token-Grants info e

-- A token of the table that is not revoked nor over its quota, but whose expiry has passed.
abbrev pub IsExpired : Database → ℕ → Str → TokenRow → Type 0
IsExpired d now hash r =
    (token_row_by_hash d hash ≡ some r)
    × (r.revoked ≡ false)
    × ((quota_exceeded d now hash).0 ≡ false)
    × (expired r now ≡ true)

expired_lookup :
    (d : Database) (now : ℕ) (hash : Str) (r : TokenRow)
    → IsExpired d now hash r
    → lookup_token d hash ≡ some (record { role = r.role; label = r.label })
unfolding lookup_token
expired_lookup d now hash r (row, live, fits, over) = rw (row, live)

-- A token whose time is over still opens the node, like any other: nothing on the way asks for the
-- expiry.
pub IsExpired-authorize :
    (d : Database) (now : ℕ) (s : Session) (hash : Str) (r : TokenRow)
    → IsExpired d now hash r
    → ((authorize d now s hash).0 ≡ true)
      × (status (authorize d now s hash).1 ≡ some (r.role, hash))
unfolding authorize authorize_token mark_trusted status
IsExpired-authorize d now s hash r e = ground (arith, expired_lookup d now hash r e)
