-- ===== src/Exits/Offered.antt =====
-- Which labels auto:<tag> a client is offered.
use quic_diver.Links.{fresh_nodes}
use quic_diver.Links.Category.{IsCandidate, HasCandidate}
use quic_diver.Base.{
  ap₂, ◌≢◌, ite, if_pos, if_neg, some, none, Option, IsTable, put_row, row_of-put_row, bytes, ℕ,
  arith, ◌≡◌, refl, sym, ap, ◌∙◌, subst, Bool, true, false, not, if-cases, List, [], ◌∷◌, ◌++◌, ◌⊎◌,
  inl, inr, In, Rows, row_of, Str, Str-discrete,
}
use quic_diver.Store.{Node}
use quic_diver.Balancer.{is_blank, sort_strings}
use quic_diver.Balancer.Switch.{sort_strings-In}
use quic_diver.Exits.{
  ExitView, is_alive, value_of, mark_nodes, node_exits, keys, auto_exit, auto_exits, exits_of,
}
use quic_diver.Exits.Marked.{
  HasNode, HasAlive, IsBacked, mark_nodes-IsBacked, mark_nodes-marks, keys-In, In-keys,
}

-- A label auto:<tag> of the list.
abbrev pub IsOffered : List ExitView → Str → Bool → Type 0
IsOffered vs tag alive = In (auto_exit tag alive) vs

In-append : {A : Type 0} (x : A) (xs ys : List A) → In x (xs ++ ys) → In x xs ⊎ In x ys
In-append x [] ys i = inr i
In-append x (y ∷ xs) ys (inl e) = inl (inl e)
In-append x (y ∷ xs) ys (inr i) = elim (In-append x xs ys i) [ inl j ↦ inl (inr j) | inr j ↦ inr j ]

In-behind : {A : Type 0} (x : A) (xs ys : List A) → In x ys → In x (xs ++ ys)
In-behind x [] ys i = i
In-behind x (y ∷ xs) ys i = inr (In-behind x xs ys i)

node_exits-auto :
    (me : Str) (now : ℕ) (ns : Rows Str Node) (v : ExitView)
    → In v (node_exits me now ns)
    → v.auto ≡ false
unfolding node_exits
node_exits-auto me now [] v i = elim i [ ]
node_exits-auto me now ((id, n) ∷ ns) v i =
    if-cases (λ (vs : List ExitView). In v vs → v.auto ≡ false) (not n.enabled) _ _
      (λ e j. node_exits-auto me now ns v j)
      (λ e j. elim j [ inl f ↦ ap ExitView.auto f | inr k ↦ node_exits-auto me now ns v k ]) i

auto_exits-In :
    (t : Rows Str Bool) (tags : List Str) (v : ExitView)
    → In v (auto_exits t tags)
    → (tag : Str) × In tag tags × (v ≡ auto_exit tag (value_of (row_of Str-discrete t tag)))
auto_exits-In t [] v i = elim i [ ]
auto_exits-In t (tag ∷ tags) v (inl e) = (tag, inl refl, e)
auto_exits-In t (tag ∷ tags) v (inr i) = let (k, j, e) = auto_exits-In t tags v i in (k, inr j, e)

In-auto_exits :
    (t : Rows Str Bool) (tags : List Str) (tag : Str)
    → In tag tags
    → In (auto_exit tag (value_of (row_of Str-discrete t tag))) (auto_exits t tags)
In-auto_exits t [] tag i = elim i [ ]
In-auto_exits t (k ∷ tags) tag (inl e) =
    inl (ap (λ (x : Str). auto_exit x (value_of (row_of Str-discrete t x))) e)
In-auto_exits t (k ∷ tags) tag (inr i) = inr (In-auto_exits t tags tag i)

table_row :
    (rs : Rows Str Node) (id : Str) (n : Node)
    → IsTable Str-discrete rs
    → In (id, n) rs
    → row_of Str-discrete rs id ≡ some n
table_row [] id n u i = elim i [ ]
table_row ((k, m) ∷ rs) id n (absent, u) (inl e) =
    let same : id ≡ k = ap (λ (r : Str × Node). r.0) e in
    let node : n ≡ m = ap (λ (r : Str × Node). r.1) e in
    if_pos (Str-discrete id k) same _ _ ∙ ap some (sym node)
table_row ((k, m) ∷ rs) id n (absent, u) (inr i) = elim (Str-discrete id k) [
  | yes e ↦ ground (arith, table_row rs id n u i)
  | no e ↦ if_neg (Str-discrete id k) e _ _ ∙ table_row rs id n u i
]

row_In :
    (rs : Rows Str Node) (id : Str) (n : Node) → row_of Str-discrete rs id ≡ some n → In (id, n) rs
row_In [] id n h = ground arith
row_In ((k, m) ∷ rs) id n h = elim (Str-discrete id k) [
  | yes e ↦ inl (ap₂ (λ (a : Str) (b : Node). (a, b)) e (ground arith))
  | no e ↦ inr (row_In rs id n (ground arith))
]

-- The registry that Reload keeps has the rows of all other nodes.
fresh_kept :
    (me : Str) (acc rs : Rows Str Node) (id : Str) (o : Option Node)
    → row_of Str-discrete rs id ≡ none
    → row_of Str-discrete acc id ≡ o
    → row_of Str-discrete (fresh_nodes me acc rs) id ≡ o
unfolding fresh_nodes
fresh_kept me acc [] id o h e = e
fresh_kept me acc ((k, m) ∷ rs) id o h e =
    fresh_kept me (ite (Str-discrete k me) acc (put_row Str-discrete acc k m)) rs id o
      (ground arith) (ground (arith, row_of-put_row Str-discrete acc k id m))

fresh_row :
    (me : Str) (acc rs : Rows Str Node) (id : Str) (n : Node)
    → id ≢ me
    → IsTable Str-discrete rs
    → row_of Str-discrete rs id ≡ some n
    → row_of Str-discrete (fresh_nodes me acc rs) id ≡ some n
unfolding fresh_nodes
fresh_row me acc [] id n q u h = ground arith
fresh_row me acc ((k, m) ∷ rs) id n q (absent, u) h =
    let acc' = ite (Str-discrete k me) acc (put_row Str-discrete acc k m) in
    elim (Str-discrete id k) [
      | yes e ↦
          fresh_kept me acc' rs id (some n) (ground arith)
            (ground (arith, row_of-put_row Str-discrete acc k id m))
      | no e ↦ fresh_row me acc' rs id n q u (ground arith)
    ]

-- A node in use that bears the tag: the own one, or one of those that pickByCategory chooses from.
abbrev pub HasBearer : Str → Rows Str Node → Str → Type 0
HasBearer me ns tag =
    ((n : Node) × In (me, n) ns × IsCandidate n tag)
    ⊎ ((id : Str) × HasCandidate (fresh_nodes me [] ns) tag id)

node-bearer :
    (me : Str) (ns : Rows Str Node) (tag : Str)
    → IsTable Str-discrete ns
    → HasNode ns tag
    → HasBearer me ns tag
node-bearer me ns tag u (id, n, i, c) = elim (Str-discrete id me) [
  | yes e ↦ inl (n, subst (λ (k : Str). In (k, n) ns) e i, c)
  | no q ↦
      let row = fresh_row me [] ns id n q u (table_row ns id n u i) in
      inr (id, (n, row_In (fresh_nodes me [] ns) id n row, c))
]

module _ (me : Str) (now : ℕ) (ns : Rows Str Node) where
  -- What a label auto:<tag> of the list stands for.
  abbrev pub StandsFor : ExitView → Type 0
  StandsFor v =
      (v.route ≡ bytes "auto:" ++ v.label)
      × HasBearer me ns v.label
      × (v.alive ≡ true → HasAlive me now ns v.label)

  auto_exits-backed :
      (t : Rows Str Bool) (v : ExitView)
      → IsTable Str-discrete ns
      → IsBacked me now ns t
      → In v (auto_exits t (sort_strings (keys t)))
      → StandsFor v
  auto_exits-backed t v u h i =
      let (tag, j, e) = auto_exits-In t (sort_strings (keys t)) v i in
      let (b, r) = In-keys t tag ((sort_strings-In tag (keys t)).0 j) in
      let (node, alive) = h tag b r in
      subst StandsFor (sym e)
        (refl, node-bearer me ns tag u node, λ f. alive (ap value_of (sym r) ∙ f))

  -- In a registry with one row for each name: a label auto:<tag> of the list is routed by this tag, and
  -- has a node in use that bears it, the own one or one that pickByCategory chooses from; one of its
  -- bearers is alive if the label is called alive. And each tag and category, if not empty, of a node
  -- in use that is alive is in the list as a label that is alive.
  pub exits_of-IsOffered :
      IsTable Str-discrete ns
      → ((v : ExitView) → In v (exits_of me now ns) → v.auto ≡ true → StandsFor v)
        × ((id : Str) (n : Node) (tag : Str)
            → In (id, n) ns
            → n.enabled ≡ true
            → is_alive me now id n ≡ true
            → In tag (n.tags ++ n.category ∷ [])
            → is_blank tag ≡ false
            → IsOffered (exits_of me now ns) tag true)
  unfolding exits_of
  exits_of-IsOffered u =
      let t = mark_nodes me now [] ns in
      let backed : IsBacked me now ns t =
        mark_nodes-IsBacked me now ns [] ns (λ r i. i) (λ tag b e. ground arith) in
      (
        λ v i auto. elim i [
          | inl e ↦ ground arith
          | inr j ↦ elim (In-append v (node_exits me now ns) _ j) [
            | inl k ↦ ground (arith, node_exits-auto me now ns v k)
            | inr k ↦ auto_exits-backed t v u backed k
          ]
        ],
        λ id n tag i on alive j k.
            let e = mark_nodes-marks me now ns [] ns id n tag i on alive j k in
            let key = (sort_strings-In tag (keys t)).1 (keys-In t tag true e) in
            inr (
              In-behind _ (node_exits me now ns) _ (
                subst (λ o. In (auto_exit tag (value_of o)) (auto_exits t (sort_strings (keys t))))
                  e (In-auto_exits t (sort_strings (keys t)) tag key))),
      )
