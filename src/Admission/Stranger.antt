-- ===== src/Admission/Stranger.antt =====
-- What a stranger sees of a node that has a store.
use quic_diver.Base.{◌≡◌, ◌⊎◌, false, some, List, [], ◌∷◌}
use quic_diver.Auth.{Session}
use quic_diver.Store.{Database}
use quic_diver.Chain
use quic_diver.Admission.{
  Request, asks_connect, Connection, Response, decoy, no_content, proxy_auth_required,
}

-- A stranger: the node has a store, and the session has never been trusted.
abbrev pub IsStranger : Connection → Type 0
IsStranger c =
    (d : Database) × (s : Session) × (c.store ≡ some d) × (c.session ≡ some s) × (s.ready ≡ false)

-- What a stranger is told: status 407 on a plain CONNECT, and else the page for strangers.
abbrev pub refusal : Request → Response
refusal (asks_connect parsed r) = proxy_auth_required
refusal q = decoy

-- Every answer is the refusal of its request.
abbrev pub Refuses : List Request → List Response → Type 0
Refuses [] [] = Unit
Refuses (q ∷ qs) (r ∷ rs) = (r ≡ refusal q) × Refuses qs rs
Refuses qs rs = ⊥

-- A stranger's request is accepted, or refused and leaves a stranger.
abbrev Stays : Response → Response × Connection → Type 0
Stays refused (r, c) = (r ≡ no_content) ⊎ ((r ≡ refused) × IsStranger c)
