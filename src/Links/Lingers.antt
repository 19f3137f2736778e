-- ===== src/Links/Lingers.antt =====
-- A dial that overlaps with a reload of the registry.
use quic_diver.Base.{
  ℕ, arith, ◌≡◌, ◌≢◌, refl, sym, ◌∙◌, false, not, ◌||◌, if◌then◌else◌, subst, Bool-cases, inl, inr,
  Option, none, some, All, List, [], ◌∷◌, Rows, row_of, row_of-put_row_at, Str, Str-discrete,
}
use quic_diver.Store.{Node, same_text, same_text_refl}
use quic_diver.Links.Follows.{Points}
use quic_diver.Links.{
  Conn, Link, NodeLinks, fresh_nodes, must_close, reload_links, reload, no_way, linked, dials,
  is_empty, start_known, start_dial, end_dial, keep_conn,
}

-- The reloads one after the other.
abbrev pub reload_all : NodeLinks → List (Rows Str Node) → NodeLinks
reload_all l [] = l
reload_all l (listed ∷ rest) = reload_all (reload l (some listed)) rest

-- The name is neither empty nor the own one.
abbrev pub IsOther : NodeLinks → Str → Type 0
IsOther l id = (is_empty id || same_text id l.self_id) ≡ false

-- The node has this link, and stands at this address.
abbrev pub Stuck : NodeLinks → Str → Node → Link → Type 0
Stuck l id at ln =
    IsOther l id
    × (row_of Str-discrete l.links id ≡ some ln)
    × Points (row_of Str-discrete l.nodes id) at

must_close-same :
    (fresh old : Option Node) (at : Node)
    → Points fresh at
    → Points old at
    → must_close fresh old ≡ false
unfolding must_close
must_close-same none old at f o = elim f [ ]
must_close-same (some n) none at f o = elim o [ ]
must_close-same (some n) (some m) at (on, addr, sni) (on', addr', sni') =
    rw (on, addr, addr', sni, sni') (ground (arith, same_text_refl at.addr, same_text_refl at.sni))

reload_links-row :
    (fresh old : Rows Str Node) (ls : Rows Str Link) (id : Str) (ln : Link)
    → must_close (row_of Str-discrete fresh id) (row_of Str-discrete old id) ≡ false
    → row_of Str-discrete ls id ≡ some ln
    → row_of Str-discrete (reload_links fresh old ls).0 id ≡ some ln
unfolding reload_links
reload_links-row fresh old [] id ln k h = h
reload_links-row fresh old ((j, w) ∷ ls) id ln k h = elim (Str-discrete id j) [
  | yes e ↦ ground arith
  | no e ↦ ground (arith, reload_links-row fresh old ls id ln k)
]

reload-Stuck :
    (l : NodeLinks) (listed : Rows Str Node) (id : Str) (at : Node) (ln : Link)
    → Points (row_of Str-discrete (fresh_nodes l.self_id [] listed) id) at
    → Stuck l id at ln
    → Stuck (reload l (some listed)) id at ln
unfolding reload
reload-Stuck l listed id at ln f (other, link, o) =
    let fresh = fresh_nodes l.self_id [] listed in
    (
      other,
      reload_links-row fresh l.nodes l.links id ln
          (must_close-same (row_of Str-discrete fresh id) (row_of Str-discrete l.nodes id) at f o)
          link,
      f,
    )

reload_all-Stuck :
    (l : NodeLinks) (rest : List (Rows Str Node)) (id : Str) (at : Node) (ln : Link)
    → All (λ listed. Points (row_of Str-discrete (fresh_nodes l.self_id [] listed) id) at) rest
    → Stuck l id at ln
    → Stuck (reload_all l rest) id at ln
unfolding reload
reload_all-Stuck l [] id at ln f h = h
reload_all-Stuck l (listed ∷ rest) id at ln (f, fs) h =
    reload_all-Stuck (reload l (some listed)) rest id at ln fs (reload-Stuck l listed id at ln f h)

pub start_dial-Stuck :
    (l : NodeLinks) (now : ℕ) (id : Str) (at : Node) (ln : Link)
    → Stuck l id at ln
    → start_dial l now id ≡ linked ln.conn
unfolding start_dial
start_dial-Stuck l now id at ln (other, link, o) = rw other (on (row_of Str-discrete l.nodes id) o)
  where
    on :
        (r : Option Node)
        → Points r at
        → (elim r [
          | none ↦ no_way
          | some n ↦
              if not n.enabled
              then no_way
              else start_known l now id n (row_of Str-discrete l.links id)
        ])
          ≡ linked ln.conn
    on none s = elim s [ ]
    on (some n) (e, addr, sni) = rw (e, link) refl

start_known-dials :
    (l : NodeLinks) (now : ℕ) (id : Str) (m n : Node) (r : Option Link)
    → start_known l now id m r ≡ dials n
    → r ≡ none
start_known-dials l now id m n none h = refl
start_known-dials l now id m n (some ln) h = ground arith

start_dial-dials :
    (l : NodeLinks) (now : ℕ) (id : Str) (n : Node)
    → start_dial l now id ≡ dials n
    → IsOther l id × (row_of Str-discrete l.links id ≡ none)
unfolding start_dial
start_dial-dials l now id n h = elim (Bool-cases (is_empty id || same_text id l.self_id)) [
  | inl own ↦ ground arith
  | inr other ↦ (other, at (row_of Str-discrete l.nodes id) (rw other at h))
]
  where
    at :
        (o : Option Node)
        → (elim o [
          | none ↦ no_way
          | some m ↦
              if not m.enabled
              then no_way
              else start_known l now id m (row_of Str-discrete l.links id)
        ])
          ≡ dials n
        → row_of Str-discrete l.links id ≡ none
    at none e = ground arith
    at (some m) e = elim (Bool-cases m.enabled) [
      | inl on ↦ start_known-dials l now id m n (row_of Str-discrete l.links id) (ground arith)
      | inr off ↦ ground arith
    ]

reload_links-none :
    (fresh old : Rows Str Node) (ls : Rows Str Link) (id : Str)
    → row_of Str-discrete ls id ≡ none
    → row_of Str-discrete (reload_links fresh old ls).0 id ≡ none
unfolding reload_links
reload_links-none fresh old [] id h = h
reload_links-none fresh old ((j, w) ∷ ls) id h = elim (Str-discrete id j) [
  | yes e ↦ ground arith
  | no e ↦ ground (arith, reload_links-none fresh old ls id)
]

pub ended-Stuck :
    (l : NodeLinks) (later : ℕ) (id : Str) (at : Node) (c : Conn)
    → IsOther l id
    → row_of Str-discrete l.links id ≡ none
    → Points (row_of Str-discrete l.nodes id) at
    → Stuck (end_dial l later id (some c)).0 id at (record { conn = c; born = later })
unfolding end_dial
ended-Stuck l later id at c other e p =
    rw e (other, row_of-put_row_at Str-discrete l.links id (record { conn = c; born = later }), p)

end_dial_self :
    (l : NodeLinks) (later : ℕ) (id : Str) (c : Conn)
    → (end_dial l later id (some c)).0.self_id ≡ l.self_id
unfolding end_dial
end_dial_self l later id c = at (row_of Str-discrete l.links id)
  where
    at : (r : Option Link) → (keep_conn l later id c r).0.self_id ≡ l.self_id
    at none = refl
    at (some cur) = refl

moved-Points : (o : Option Node) (at n : Node) → n.addr ≢ at.addr → Points o at → ¬ Points o n
moved-Points none at n q p r = elim p [ ]
moved-Points (some m) at n q (on, addr, sni) (on', addr', sni') = q (sym addr' ∙ addr)

-- A dial started, and before it ended a reload brought the node's new address. Then the link leads to
-- the node as it was dialed, and no later reload closes it, however often the registry is read, while
-- the node stays where it is: what `Dialer` gives does not lead to where the registry says.
pub start_dial-lingers :
    (l : NodeLinks) (now later : ℕ) (id : Str) (n at : Node) (k : ℕ) (listed : Rows Str Node)
    (rest : List (Rows Str Node))
    → start_dial l now id ≡ dials n
    → n.addr ≢ at.addr
    → All (λ r. Points (row_of Str-discrete (fresh_nodes l.self_id [] r) id) at) (listed ∷ rest)
    → (let c : Conn = record { number = k; to = n } in
        let m = reload_all (end_dial (reload l (some listed)) later id (some c)).0 rest in
        (start_dial m later id ≡ linked c) × ¬ Points (row_of Str-discrete m.nodes id) n)
unfolding reload end_dial
start_dial-lingers l now later id n at k listed rest s moved (f, fs) =
    let c : Conn = record { number = k; to = n } in
    let ln : Link = record { conn = c; born = later } in
    let (other, free) = start_dial-dials l now id n s in
    let ended =
      ended-Stuck (reload l (some listed)) later id at c other
        (reload_links-none (fresh_nodes l.self_id [] listed) l.nodes l.links id free) f in
    let ended' : NodeLinks = (end_dial (reload l (some listed)) later id (some c)).0 in
    let self = end_dial_self (reload l (some listed)) later id c in
    let rest' =
      subst (λ me. All (λ r. Points (row_of Str-discrete (fresh_nodes me [] r) id) at) rest)
        (sym self) fs in
    let stuck = reload_all-Stuck ended' rest id at ln rest' ended in
    (
      start_dial-Stuck (reload_all ended' rest) later id at ln stuck,
      moved-Points _ at n moved stuck.2,
    )
