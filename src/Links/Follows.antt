-- ===== src/Links/Follows.antt =====
-- Where the links lead.
use quic_diver.Base.{
  ℕ, arith, ◌≡◌, refl, sym, ◌∙◌, true, false, not, ◌||◌, if-cases, ite, subst, if◌then◌else◌,
  Option, none, some, List, [], ◌∷◌, Rows, row_of, put_row, Str, Str-discrete,
}
use quic_diver.Store.{Node, same_text, same_text-eq}
use quic_diver.Balancer.{PathStats}
use quic_diver.Links.{
  Conn, Link, NodeLinks, new_node_links, must_close, reload_links, reload, Start, no_way, linked,
  dials, start_known, is_empty, is_pausing, start_dial, end_dial, keep_conn, made_conn,
  follow_start, dialer, close_links, pick_by_category, sample_once,
}

-- The registry has the node enabled, and under the address that was dialed.
abbrev pub Points : Option Node → Node → Type 0
Points none to = ⊥
Points (some n) to = (n.enabled ≡ true) × (n.addr ≡ to.addr) × (n.sni ≡ to.sni)

-- All these links lead to where the registry says.
abbrev Leads : Rows Str Node → Rows Str Link → Type 0
Leads ns [] = Unit
Leads ns ((id, ln) ∷ ls) = Points (row_of Str-discrete ns id) ln.conn.to × Leads ns ls

abbrev pub Follows : NodeLinks → Type 0
Follows l = Leads l.nodes l.links

-- What may happen to the links one after the other, no dial overlapping with anything else.
pub data Calls : NodeLinks → NodeLinks → Type 0 where
  ends : {l : NodeLinks} → Calls l l
  reloads :
      {l m : NodeLinks} (listed : Option (Rows Str Node)) → Calls (reload l listed) m → Calls l m
  dials_node :
      {l m : NodeLinks} (now : ℕ) (id : Str) (dial : Node → Option ℕ)
      → Calls (dialer l now id dial).0 m
      → Calls l m
  chooses :
      {l m : NodeLinks} (now : ℕ) (tag : Str) → Calls (pick_by_category l now tag).0 m → Calls l m
  samples :
      {l m : NodeLinks} (stats : Conn → Option PathStats) (now : ℕ)
      → Calls (sample_once l stats now) m
      → Calls l m
  shuts : {l m : NodeLinks} → Calls (close_links l) m → Calls l m

must_close-Points :
    (fresh old : Option Node) (to : Node)
    → must_close fresh old ≡ false
    → Points old to
    → Points fresh to
unfolding must_close
must_close-Points none old to h p = ground arith
must_close-Points (some n) none to h p = elim p [ ]
must_close-Points (some n) (some o) to h (on, addr, sni) = (
  ground arith,
  same_text-eq n.addr o.addr (ground arith) ∙ addr,
  same_text-eq n.sni o.sni (ground arith) ∙ sni,
)

reload_links-Leads :
    (fresh old : Rows Str Node) (ls : Rows Str Link)
    → Leads old ls
    → Leads fresh (reload_links fresh old ls).0
unfolding reload_links
reload_links-Leads fresh old [] h = tt
reload_links-Leads fresh old ((id, ln) ∷ ls) (p, h) =
    let f = row_of Str-discrete fresh id in
    let o = row_of Str-discrete old id in
    if-cases (λ (r : Rows Str Link × List Conn). Leads fresh r.0) (must_close f o) _ _
      (λ k. reload_links-Leads fresh old ls h)
      (λ k. (must_close-Points f o ln.conn.to k p, reload_links-Leads fresh old ls h))

reload-Follows :
    (l : NodeLinks) (listed : Option (Rows Str Node)) → Follows l → Follows (reload l listed)
unfolding reload
reload-Follows l none h = h
reload-Follows l (some listed) h = reload_links-Leads _ l.nodes l.links h

put_row-Leads :
    (ns : Rows Str Node) (ls : Rows Str Link) (id : Str) (ln : Link)
    → Points (row_of Str-discrete ns id) ln.conn.to
    → Leads ns ls
    → Leads ns (put_row Str-discrete ls id ln)
put_row-Leads ns [] id ln p h = (p, tt)
put_row-Leads ns ((j, w) ∷ ls) id ln p (q, h) =
    elim (Str-discrete id j)
      as (λ d. Leads ns (ite d ((j, ln) ∷ ls) ((j, w) ∷ put_row Str-discrete ls id ln))) [
        | yes e ↦ (subst (λ k. Points (row_of Str-discrete ns k) ln.conn.to) e p, h)
        | no e ↦ (q, put_row-Leads ns ls id ln p h)
      ]

-- The link of a node, if it has one, leads to where the registry says.
abbrev LinkPoints : Option Node → Option Link → Type 0
LinkPoints n none = Unit
LinkPoints n (some ln) = Points n ln.conn.to

Leads-row :
    (ns : Rows Str Node) (ls : Rows Str Link) (id : Str)
    → Leads ns ls
    → LinkPoints (row_of Str-discrete ns id) (row_of Str-discrete ls id)
Leads-row ns [] id h = tt
Leads-row ns ((j, w) ∷ ls) id (q, h) =
    elim (Str-discrete id j)
      as (λ d.
        LinkPoints (row_of Str-discrete ns id) (ite d (some w) (row_of Str-discrete ls id))) [
          | yes e ↦ subst (λ k. Points (row_of Str-discrete ns k) w.conn.to) (sym e) q
          | no e ↦ Leads-row ns ls id h
        ]

-- What `Dialer` gives leads to where the registry says.
abbrev pub ConnPoints : Option Node → Option Conn → Type 0
ConnPoints n none = Unit
ConnPoints n (some c) = Points n c.to

-- What is to be dialed, and what is linked, are right.
abbrev StartPoints : Option Node → Start → Type 0
StartPoints n no_way = Unit
StartPoints n (linked c) = Points n c.to
StartPoints n (dials to) = Points n to

start_known-Points :
    (l : NodeLinks) (now : ℕ) (id : Str) (n : Node) (r : Option Link)
    → n.enabled ≡ true
    → LinkPoints (some n) r
    → StartPoints (some n) (start_known l now id n r)
start_known-Points l now id n none on h =
    if-cases (StartPoints (some n)) (is_pausing (l.failed id) now) _ _ (λ k. tt)
      (λ k. (on, refl, refl))
start_known-Points l now id n (some ln) on h = h

start_dial-Points :
    (l : NodeLinks) (now : ℕ) (id : Str)
    → Follows l
    → StartPoints (row_of Str-discrete l.nodes id) (start_dial l now id)
unfolding start_dial
start_dial-Points l now id h =
    let o = row_of Str-discrete l.nodes id in
    if-cases (StartPoints o) (is_empty id || same_text id l.self_id) _ _ (λ k. tt)
      (λ k. at o (Leads-row l.nodes l.links id h))
  where
    at :
        (o : Option Node)
        → LinkPoints o (row_of Str-discrete l.links id)
        → StartPoints o (elim o [
          | none ↦ no_way
          | some n ↦
              if not n.enabled
              then no_way
              else start_known l now id n (row_of Str-discrete l.links id)
        ])
    at none p = tt
    at (some n) p =
        if-cases (StartPoints (some n)) (not n.enabled) _ _ (λ k. tt)
          (λ k. start_known-Points l now id n (row_of Str-discrete l.links id) (ground arith) p)

-- A dial that nothing came between.
end_dial-Follows :
    (l : NodeLinks) (now : ℕ) (id : Str) (o : Option Conn)
    → Follows l
    → ConnPoints (row_of Str-discrete l.nodes id) o
    → Follows (end_dial l now id o).0
      × ConnPoints (row_of Str-discrete l.nodes id) (end_dial l now id o).1
unfolding end_dial
end_dial-Follows l now id none h p = (h, tt)
end_dial-Follows l now id (some c) h p =
    at (row_of Str-discrete l.links id) (Leads-row l.nodes l.links id h)
  where
    at :
        (r : Option Link)
        → LinkPoints (row_of Str-discrete l.nodes id) r
        → Follows (keep_conn l now id c r).0
          × ConnPoints (row_of Str-discrete l.nodes id) (keep_conn l now id c r).1
    at none q = (put_row-Leads l.nodes l.links id (record { conn = c; born = now }) p h, p)
    at (some cur) q = (h, q)

dialer-Follows :
    (l : NodeLinks) (now : ℕ) (id : Str) (dial : Node → Option ℕ)
    → Follows l
    → Follows (dialer l now id dial).0
      × ConnPoints (row_of Str-discrete l.nodes id) (dialer l now id dial).1
unfolding dialer
dialer-Follows l now id dial h = at (start_dial l now id) (start_dial-Points l now id h)
  where
    made :
        (n : Node) (k : Option ℕ)
        → Points (row_of Str-discrete l.nodes id) n
        → ConnPoints (row_of Str-discrete l.nodes id) (made_conn n k)
    made n none p = tt
    made n (some j) p = p

    at :
        (s : Start)
        → StartPoints (row_of Str-discrete l.nodes id) s
        → Follows (follow_start l now id dial s).0
          × ConnPoints (row_of Str-discrete l.nodes id) (follow_start l now id dial s).1
    at no_way p = (h, tt)
    at (linked c) p = (h, p)
    at (dials n) p = end_dial-Follows l now id (made_conn n (dial n)) h (made n (dial n) p)

Calls-kept : {l m : NodeLinks} → Calls l m → Follows l → Follows m
unfolding pick_by_category sample_once close_links
Calls-kept ends h = h
Calls-kept (reloads listed s) h = Calls-kept s (reload-Follows _ listed h)
Calls-kept (dials_node now id dial s) h = Calls-kept s (dialer-Follows _ now id dial h).0
Calls-kept (chooses now tag s) h = Calls-kept s h
Calls-kept (samples stats now s) h = Calls-kept s h
Calls-kept (shuts s) h = Calls-kept s tt

-- As long as no dial overlaps with anything else: every link leads to a node of the registry that is
-- enabled, under its address and its name of today, and so does whatever `Dialer` gives.
pub Calls-Follows :
    (self : Str) (m : NodeLinks)
    → Calls (new_node_links self) m
    → Follows m
      × ((now : ℕ) (id : Str) (dial : Node → Option ℕ)
          → ConnPoints (row_of Str-discrete m.nodes id) (dialer m now id dial).1)
Calls-Follows self m s =
    let h = Calls-kept s tt in (h, λ now id dial. (dialer-Follows m now id dial h).1)
