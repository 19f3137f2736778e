-- ===== src/Admission.antt =====
-- internal/server/node.go: who is let in. The handler of the path of authorization, `authorize`,
-- `quotaExceeded`, `sessionAllowed`, `assignFor`, and the handler of a tunnel up to its start. The
-- database is the current one, and `none` is a node without a store; `hash` is the hash of a token.
pub mod Granted
pub mod Stranger
mod Tests
use quic_diver.Base.{
  ℕ, ◌+◌, Bool, true, false, not, ◌&&◌, ◌||◌, ◌==◌, leb, if◌then◌else◌, Option, none, some, List,
  [], ◌∷◌, Str, take, Addr, Prefix, is_valid, is4, v4, v6,
}
use quic_diver.Quota.{exceeded}
use quic_diver.Chain
use quic_diver.Chain.{Outcome, serve_connect}
use quic_diver.Auth.{Session, mark_trusted, set_hwid, status, authorized, token_from_request}
use quic_diver.Store.{StoreError, Result, Role, role_user, role_node, Database, same_text}
use quic_diver.Store.Tokens.{TokenInfo, lookup_token}
use quic_diver.Store.Nodes.{node_by_token_hash, touch_node}
use quic_diver.Store.Addresses.{allocate_address}
use quic_diver.Store.Quotas.{quota_of_token}

-- `quotaExceeded`: a quota that cannot be had counts for the client.
unfoldable pub quota_exceeded : Database → ℕ → Str → Bool × Database
unfolding quota_of_token exceeded
quota_exceeded d now hash = elim (quota_of_token d now hash) [
  | none ↦ (false, d)
  | some (q, d') ↦ (exceeded q, d')
]

-- A token of the table: only a client is held to its quota.
unfoldable pub authorize_token :
    Database → ℕ → Session → Str → TokenInfo → Bool × Session × Database
unfolding quota_exceeded mark_trusted same_text
authorize_token d now s hash info =
    if same_text info.role role_user
    then (let (over, d') = quota_exceeded d now hash in
        if over then (false, s, d') else (true, mark_trusted s info.role hash, d'))
    else (true, mark_trusted s info.role hash, d)

-- Not a token of the table: a neighbour, if the registry has its hash; it is marked as alive.
unfoldable pub authorize_node : Database → ℕ → Session → Str → Bool × Session × Database
unfolding node_by_token_hash mark_trusted touch_node
authorize_node d now s hash = elim (node_by_token_hash d hash) [
  | none ↦ (false, s, d)
  | some (id, n) ↦ (true, mark_trusted s role_node hash, touch_node d now id)
]

-- `authorize` of a node with a store, at the hash of the token.
unfoldable pub authorize : Database → ℕ → Session → Str → Bool × Session × Database
unfolding lookup_token authorize_token authorize_node
authorize d now s hash = elim (lookup_token d hash) [
  | none ↦ authorize_node d now s hash
  | some info ↦ authorize_token d now s hash info
]

-- `hwidFrom`: at most 128 bytes of the header.
unfoldable pub hwid_from : Str → Str
hwid_from header = take 128 header

-- What a request gets: the page for strangers, 204, a tunnel with its addresses, 400, 407, what
-- becomes of a flow, or the answer of a service for the node's own clients.
pub data Response : Type 0 where
  decoy : Response
  no_content : Response
  tunnel : List Prefix → Response
  bad_request : Response
  proxy_auth_required : Response
  flow : Outcome → Response
  service : Response

module _ (hash : Str → Str) where
  -- The handler of `AuthPath`; `session` is `none` where the context carries none.
  unfoldable pub serve_auth :
      Option Database → ℕ → Option Session → Str → Str → Response × Option Session × Option Database
  unfolding authorize token_from_request hwid_from set_hwid
  serve_auth none now s header hwid = (no_content, s, none)
  serve_auth (some d) now none header hwid = (decoy, none, some d)
  serve_auth (some d) now (some s) header hwid = elim (token_from_request header) [
    | [] ↦ (decoy, some s, some d)
    | c ∷ token ↦
        let (in_, s', d') = authorize d now s (hash (c ∷ token)) in
        if in_
        then (no_content, some (set_hwid s' (hwid_from hwid)), some d')
        else (decoy, some s', some d')
  ]

-- `sessionAllowed`
unfoldable pub session_allowed : Option Database → Option Session → Bool
unfolding authorized
session_allowed none s = true
session_allowed (some d) none = false
session_allowed (some d) (some s) = authorized s

-- The parameters of a node that matter here: `Assign` and `Pool`.
pub record Config : Type 0 where
  pub assign : List Prefix
  pub pool : Prefix

-- `addr.BitLen()`
abbrev bit_len : Addr → ℕ
bit_len (v4 n) = 32
bit_len (v6 n z) = 128
bit_len _ = 0

-- `cfg.Pool.IsValid()`: an address, and no more bits than it has.
unfoldable pub pool_valid : Prefix → Bool
pool_valid p = is_valid p.addr && leb p.bits (bit_len p.addr)

-- The addresses and the database, or `none` for an error.
unfoldable pub assign_addr : Database → Str → Prefix → Option (List Prefix × Option Database)
unfolding allocate_address
assign_addr d hash pool = elim (allocate_address d hash pool) [
  | Result.failed e ↦ none
  | Result.done (a, d') ↦ some (record { addr = a; bits = bit_len a } ∷ [], some d')
]

-- `assignFor`
unfoldable pub assign_for :
    Config → Option Database → Option Session → Option (List Prefix × Option Database)
unfolding assign_addr pool_valid status
assign_for cfg none s = some (cfg.assign, none)
assign_for cfg (some d) s =
    if not (pool_valid cfg.pool) then some (cfg.assign, some d) else (elim s [
      | none ↦ none
      | some t ↦ elim (status t) [ none ↦ none | some (role, hash) ↦ assign_addr d hash cfg.pool ]
    ])

-- The handler of `ConnectIPPath` up to the start of the tunnel; `parsed` tells whether the request is
-- a proper one of connect-ip.
unfoldable pub serve_connect_ip :
    Config → Option Database → Option Session → Bool → Response × Option Database
unfolding session_allowed assign_for
serve_connect_ip cfg store s parsed =
    if session_allowed store s
    then (elim (assign_for cfg store s) [
      | none ↦ (decoy, store)
      | some (addrs, store') ↦ if parsed then (tunnel addrs, store') else (decoy, store')
    ])
    else (decoy, store)

-- A plain CONNECT: `parsed` tells whether the host is an address with a port.
unfoldable pub serve_plain :
    Chain.Config → Option Database → Option Session → Bool → Chain.Request → Response
unfolding session_allowed serve_connect
serve_plain chain store s parsed r =
    if not (session_allowed store s)
    then proxy_auth_required
    else if not parsed
    then bad_request
    else flow (serve_connect chain r)

-- `serveConnectUDP`: `extended` tells whether it is an extended CONNECT, `parsed` whether its target
-- can be read.
unfoldable pub serve_udp :
    Chain.Config → Option Database → Option Session → Bool → Bool → Chain.Request → Response
unfolding session_allowed serve_connect
serve_udp chain store s extended parsed r =
    if not (session_allowed store s)
    then decoy
    else if not extended
    then decoy
    else if not parsed
    then bad_request
    else flow (serve_connect chain r)

-- The start of the handlers of DNS, of the exits and of the subscription.
unfoldable pub serve_service : Option Database → Option Session → Response
unfolding session_allowed
serve_service store s = if not (session_allowed store s) then decoy else service

-- What a client asks for on its connection, and when: the path of authorization, a tunnel, a flow over
-- TCP by plain CONNECT or over UDP, one of the services, or a path that the node does not know. The
-- paths for the panel, for other nodes and for the backup of settings are not among them.
pub data Request : Type 0 where
  asks_auth : ℕ → Str → Str → Request
  asks_tunnel : Bool → Request
  asks_connect : Bool → Chain.Request → Request
  asks_udp : Bool → Bool → Chain.Request → Request
  asks_service : Request
  asks_page : Request

pub record Connection : Type 0 where
  pub store : Option Database
  pub session : Option Session

module _ (hash : Str → Str) (cfg : Config) (chain : Chain.Config) where
  -- The handlers of the node for these requests.
  unfoldable pub serve : Connection → Request → Response × Connection
  unfolding serve_auth serve_connect_ip serve_plain serve_udp serve_service
  serve c (asks_auth now header hwid) =
      let (r, s, d) = serve_auth hash c.store now c.session header hwid in
      (r, record { store = d; session = s })
  serve c (asks_tunnel parsed) =
      let (r, d) = serve_connect_ip cfg c.store c.session parsed in
      (r, record { store = d; session = c.session })
  serve c (asks_connect parsed r) = (serve_plain chain c.store c.session parsed r, c)
  serve c (asks_udp extended parsed r) = (serve_udp chain c.store c.session extended parsed r, c)
  serve c asks_service = (serve_service c.store c.session, c)
  serve c asks_page = (decoy, c)

  -- The responses on one connection, in order.
  unfoldable pub serve_all : Connection → List Request → List Response
  serve_all c [] = []
  serve_all c (q ∷ qs) = let (r, c') = serve c q in r ∷ serve_all c' qs
