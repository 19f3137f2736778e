-- ===== src/Links/Kept.antt =====
-- Every connection that was opened: a link, or closed.
use quic_diver.Base.{
  ℕ, ◌+◌, arith, ◌≡◌, refl, ◌==◌, if◌then◌else◌, if-cases, Option, none, some, List, [], ◌∷◌, ◌++◌,
  Rows, row_of, put_row, Str, Str-discrete,
}
use quic_diver.Store.{Node}
use quic_diver.Balancer.{PathStats}
use quic_diver.Links.{
  Conn, Link, NodeLinks, new_node_links, must_close, reload_links, reload, end_dial, keep_conn,
  conns, close_links, pick_by_category, sample_once,
}

-- How often a connection of this number is in the list.
abbrev pub occurs : ℕ → List Conn → ℕ
occurs k [] = 0
occurs k (c ∷ cs) = (if c.number == k then 1 else 0) + occurs k cs

-- What may happen to the links, in any order: `o` are the connections opened before, and `p` those
-- opened until the end. A dial that ends may have started long before.
pub data Steps : NodeLinks → List Conn → NodeLinks → List Conn → Type 0 where
  ends : {l : NodeLinks} {o : List Conn} → Steps l o l o
  reloads :
      {l m : NodeLinks} {o p : List Conn} (listed : Option (Rows Str Node))
      → Steps (reload l listed) o m p
      → Steps l o m p
  fails :
      {l m : NodeLinks} {o p : List Conn} (now : ℕ) (id : Str)
      → Steps (end_dial l now id none).0 o m p
      → Steps l o m p
  connects :
      {l m : NodeLinks} {o p : List Conn} (now : ℕ) (id : Str) (c : Conn)
      → Steps (end_dial l now id (some c)).0 (c ∷ o) m p
      → Steps l o m p
  chooses :
      {l m : NodeLinks} {o p : List Conn} (now : ℕ) (tag : Str)
      → Steps (pick_by_category l now tag).0 o m p
      → Steps l o m p
  samples :
      {l m : NodeLinks} {o p : List Conn} (stats : Conn → Option PathStats) (now : ℕ)
      → Steps (sample_once l stats now) o m p
      → Steps l o m p
  shuts : {l m : NodeLinks} {o p : List Conn} → Steps (close_links l) o m p → Steps l o m p

-- Each connection that was opened is a link or was closed, and once only.
abbrev pub Conserves : NodeLinks → List Conn → Type 0
Conserves l o = (k : ℕ) → occurs k (conns l.links) + occurs k l.closed ≡ occurs k o

occurs-append : (k : ℕ) (a b : List Conn) → occurs k (a ++ b) ≡ occurs k a + occurs k b
occurs-append k [] b = omega arith
occurs-append k (c ∷ a) b = omega (arith, occurs-append k a b)

occurs-reload_links :
    (k : ℕ) (fresh old : Rows Str Node) (ls : Rows Str Link)
    → (let (kept, gone) = reload_links fresh old ls in
        occurs k (conns kept) + occurs k gone ≡ occurs k (conns ls))
unfolding reload_links
occurs-reload_links k fresh old [] = refl
occurs-reload_links k fresh old ((id, ln) ∷ ls) =
    let rest = occurs-reload_links k fresh old ls in
    if-cases
      (λ (r : Rows Str Link × List Conn).
        occurs k (conns r.0) + occurs k r.1 ≡ occurs k (conns ((id, ln) ∷ ls)))
      (must_close (row_of Str-discrete fresh id) (row_of Str-discrete old id)) _ _
      (λ h. omega (arith, rest)) (λ h. omega (arith, rest))

occurs-put_row :
    (k : ℕ) (ls : Rows Str Link) (id : Str) (ln : Link)
    → row_of Str-discrete ls id ≡ none
    → occurs k (conns (put_row Str-discrete ls id ln)) ≡ occurs k (ln.conn ∷ conns ls)
occurs-put_row k [] id ln h = refl
occurs-put_row k ((j, w) ∷ ls) id ln h = ground (arith, occurs-put_row k ls id ln)

reload-Conserves :
    (l : NodeLinks) (o : List Conn) (listed : Option (Rows Str Node))
    → Conserves l o
    → Conserves (reload l listed) o
unfolding reload
reload-Conserves l o none h k = h k
reload-Conserves l o (some listed) h k = omega (
  arith,
  h k,
  occurs-append k (reload_links _ l.nodes l.links).1 l.closed,
  occurs-reload_links k _ l.nodes l.links,
)

end_dial-Conserves :
    (l : NodeLinks) (o : List Conn) (now : ℕ) (id : Str) (c : Conn)
    → Conserves l o
    → Conserves (end_dial l now id (some c)).0 (c ∷ o)
unfolding end_dial
end_dial-Conserves l o now id c h = at (row_of Str-discrete l.links id) refl
  where
    at :
        (r : Option Link)
        → row_of Str-discrete l.links id ≡ r
        → Conserves (keep_conn l now id c r).0 (c ∷ o)
    at none e k =
        omega (arith, h k, occurs-put_row k l.links id (record { conn = c; born = now }) e)
    at (some cur) e k = omega (arith, h k)

close_links-Conserves :
    (l : NodeLinks) (o : List Conn) → Conserves l o → Conserves (close_links l) o
unfolding close_links
close_links-Conserves l o h k = omega (arith, h k, occurs-append k (conns l.links) l.closed)

Steps-kept : {l m : NodeLinks} {o p : List Conn} → Steps l o m p → Conserves l o → Conserves m p
unfolding end_dial pick_by_category sample_once
Steps-kept ends h = h
Steps-kept (reloads listed s) h = Steps-kept s (reload-Conserves _ _ listed h)
Steps-kept (fails now id s) h = Steps-kept s h
Steps-kept (connects now id c s) h = Steps-kept s (end_dial-Conserves _ _ now id c h)
Steps-kept (chooses now tag s) h = Steps-kept s h
Steps-kept (samples stats now s) h = Steps-kept s h
Steps-kept (shuts s) h = Steps-kept s (close_links-Conserves _ _ h)

-- Whatever happens to the links of a node, in whatever order, and however many dials run at once: each
-- connection that was opened is a link or has been closed, exactly once; and after `Close` all of them
-- have been closed.
pub Steps-Conserves :
    (self : Str) (m : NodeLinks) (p : List Conn)
    → Steps (new_node_links self) [] m p
    → Conserves m p × ((k : ℕ) → occurs k (close_links m).closed ≡ occurs k p)
unfolding close_links
Steps-Conserves self m p s =
    let kept : Conserves m p = Steps-kept s (λ k. refl) in
    (kept, λ k. omega (arith, close_links-Conserves m p kept k))
