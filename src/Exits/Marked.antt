-- ===== src/Exits/Marked.antt =====
-- The map of the tags: what a key stands for.
use quic_diver.Base.{
  ℕ, arith, ◌≡◌, refl, sym, ap, ◌∙◌, subst, Bool, true, false, not, ◌||◌, if-cases, ite, Option,
  none, some, List, [], ◌∷◌, ◌++◌, inl, inr, In, Rows, row_of, put_row, row_of-put_row, Str,
  Str-discrete,
}
use quic_diver.Store.{Node, same_text, same_text_refl}
use quic_diver.Store.Nodes.{has_tag}
use quic_diver.Balancer.{is_blank}
use quic_diver.Links.Category.{IsCandidate}
use quic_diver.Rules.Geo.{equal_fold, to_lower}
use quic_diver.Rules.Domain.{str_eq_iff}
use quic_diver.Exits.{is_alive, value_of, mark_tag, mark_tags, mark_node, mark_nodes, keys}

-- A candidate for the tag, as pickByCategory takes it; and one that is alive.
abbrev pub HasNode : Rows Str Node → Str → Type 0
HasNode ns tag = (id : Str) × (n : Node) × In (id, n) ns × IsCandidate n tag

abbrev pub HasAlive : Str → ℕ → Rows Str Node → Str → Type 0
HasAlive me now ns tag =
    (id : Str) × (n : Node) × In (id, n) ns × IsCandidate n tag × (is_alive me now id n ≡ true)

has_tag_of :
    (category tag : Str) (tags : List Str)
    → In tag (tags ++ category ∷ [])
    → has_tag tags tag || same_text category tag ≡ true
unfolding has_tag equal_fold
has_tag_of category tag [] (inl e) =
    subst (λ (c : Str). same_text c tag ≡ true) e (same_text_refl tag)
has_tag_of category tag [] (inr i) = elim i [ ]
has_tag_of category tag (t ∷ tags) (inl e) =
    ground (arith, (str_eq_iff (to_lower t) (to_lower tag)).1 (ap to_lower (sym e)))
has_tag_of category tag (t ∷ tags) (inr i) = ground (arith, has_tag_of category tag tags i)

module _ (me : Str) (now : ℕ) (all : Rows Str Node) where
  -- Every key of the map stands for a candidate, and one whose value is true for one that is alive.
  abbrev pub IsBacked : Rows Str Bool → Type 0
  IsBacked t =
      (tag : Str) (b : Bool)
      → row_of Str-discrete t tag ≡ some b
      → HasNode all tag × (b ≡ true → HasAlive me now all tag)

  backed_value :
      (t : Rows Str Bool) (tag : Str) (alive : Bool)
      → IsBacked t
      → (alive ≡ true → HasAlive me now all tag)
      → value_of (row_of Str-discrete t tag) || alive ≡ true
      → HasAlive me now all tag
  backed_value t tag alive h a e = at (row_of Str-discrete t tag) refl e
    where
      at :
          (o : Option Bool)
          → row_of Str-discrete t tag ≡ o
          → value_of o || alive ≡ true
          → HasAlive me now all tag
      at none k f = a f
      at (some true) k f = (h tag true k).1 refl
      at (some false) k f = a f

  put_row-IsBacked :
      (t : Rows Str Bool) (tag : Str) (b : Bool)
      → IsBacked t
      → HasNode all tag
      → (b ≡ true → HasAlive me now all tag)
      → IsBacked (put_row Str-discrete t tag b)
  put_row-IsBacked t tag b h c a j v e =
      elim (Str-discrete j tag)
          as (λ (d : Dec (j ≡ tag)).
            ite d (some b) (row_of Str-discrete t j) ≡ some v
            → HasNode all j × (v ≡ true → HasAlive me now all j)) [
              | yes k ↦ λ f. (
                subst (HasNode all) (sym k) c,
                λ w. subst (HasAlive me now all) (sym k) (a (ground arith)),
              )
              | no k ↦ λ f. h j v f
            ]
        (sym (row_of-put_row Str-discrete t tag j b) ∙ e)

  mark_tags-IsBacked :
      (t : Rows Str Bool) (id : Str) (n : Node) (tags : List Str)
      → In (id, n) all
      → ((tag : Str) → In tag tags → IsCandidate n tag)
      → IsBacked t
      → IsBacked (mark_tags t (is_alive me now id n) tags)
  unfolding mark_tags
  mark_tags-IsBacked t id n [] i c h = h
  mark_tags-IsBacked t id n (tag ∷ tags) i c h =
      let b = value_of (row_of Str-discrete t tag) || is_alive me now id n in
      mark_tags-IsBacked (mark_tag t (is_alive me now id n) tag) id n tags i (λ k j. c k (inr j))
        (if-cases IsBacked (is_blank tag) _ _ (λ e. h)
          (λ e.
            put_row-IsBacked t tag b h (id, n, i, c tag (inl refl))
              (backed_value t tag (is_alive me now id n) h (λ l. (id, n, i, c tag (inl refl), l)))))

  pub mark_nodes-IsBacked :
      (t : Rows Str Bool) (ns : Rows Str Node)
      → ((r : Str × Node) → In r ns → In r all)
      → IsBacked t
      → IsBacked (mark_nodes me now t ns)
  unfolding mark_nodes
  mark_nodes-IsBacked t [] sub h = h
  mark_nodes-IsBacked t ((id, n) ∷ ns) sub h =
      mark_nodes-IsBacked (mark_node me now t id n) ns (λ r i. sub r (inr i))
        (if-cases IsBacked (not n.enabled) _ _ (λ e. h)
          (λ e.
            mark_tags-IsBacked t id n (n.tags ++ n.category ∷ []) (sub (id, n) (inl refl))
              (λ tag i. (ground arith, has_tag_of n.category tag n.tags i)) h))

  mark_tags-true :
      (t : Rows Str Bool) (alive : Bool) (tags : List Str) (tag : Str)
      → row_of Str-discrete t tag ≡ some true
      → row_of Str-discrete (mark_tags t alive tags) tag ≡ some true
  unfolding mark_tags
  mark_tags-true t alive [] tag h = h
  mark_tags-true t alive (k ∷ tags) tag h =
      let b = value_of (row_of Str-discrete t k) || alive in
      mark_tags-true (mark_tag t alive k) alive tags tag
        (ground (arith, row_of-put_row Str-discrete t k tag b))

  mark_tags-marks :
      (t : Rows Str Bool) (tags : List Str) (tag : Str)
      → is_blank tag ≡ false
      → In tag tags
      → row_of Str-discrete (mark_tags t true tags) tag ≡ some true
  unfolding mark_tags
  mark_tags-marks t [] tag k i = elim i [ ]
  mark_tags-marks t (j ∷ tags) tag k (inl e) =
      let b = value_of (row_of Str-discrete t j) || true in
      mark_tags-true (mark_tag t true j) true tags tag
        (ground (arith, row_of-put_row Str-discrete t j tag b))
  mark_tags-marks t (j ∷ tags) tag k (inr i) = mark_tags-marks (mark_tag t true j) tags tag k i

  mark_nodes-true :
      (t : Rows Str Bool) (ns : Rows Str Node) (tag : Str)
      → row_of Str-discrete t tag ≡ some true
      → row_of Str-discrete (mark_nodes me now t ns) tag ≡ some true
  unfolding mark_nodes
  mark_nodes-true t [] tag h = h
  mark_nodes-true t ((id, n) ∷ ns) tag h = mark_nodes-true (mark_node me now t id n) ns tag (
      if-cases (λ (u : Rows Str Bool). row_of Str-discrete u tag ≡ some true) (not n.enabled) _ _
        (λ e. h) (λ e. mark_tags-true t (is_alive me now id n) (n.tags ++ n.category ∷ []) tag h))

  mark_node-marks :
      (t : Rows Str Bool) (id : Str) (n : Node) (tag : Str)
      → n.enabled ≡ true
      → is_alive me now id n ≡ true
      → In tag (n.tags ++ n.category ∷ [])
      → is_blank tag ≡ false
      → row_of Str-discrete (mark_node me now t id n) tag ≡ some true
  mark_node-marks t id n tag on alive j k =
      if-cases (λ (u : Rows Str Bool). row_of Str-discrete u tag ≡ some true) (not n.enabled) _ _
        (λ e. ground arith)
        (λ e.
          subst
            (λ (u : Bool).
              row_of Str-discrete (mark_tags t u (n.tags ++ n.category ∷ [])) tag ≡ some true)
            (sym alive) (mark_tags-marks t (n.tags ++ n.category ∷ []) tag k j))

  pub mark_nodes-marks :
      (t : Rows Str Bool) (ns : Rows Str Node) (id : Str) (n : Node) (tag : Str)
      → In (id, n) ns
      → n.enabled ≡ true
      → is_alive me now id n ≡ true
      → In tag (n.tags ++ n.category ∷ [])
      → is_blank tag ≡ false
      → row_of Str-discrete (mark_nodes me now t ns) tag ≡ some true
  unfolding mark_nodes
  mark_nodes-marks t [] id n tag i on alive j k = elim i [ ]
  mark_nodes-marks t ((x, m) ∷ ns) id n tag (inr i) on alive j k =
      mark_nodes-marks (mark_node me now t x m) ns id n tag i on alive j k
  mark_nodes-marks t ((x, m) ∷ ns) id n tag (inl e) on alive j k =
      mark_nodes-true (mark_node me now t x m) ns tag (
        subst (λ (r : Str × Node). row_of Str-discrete (mark_node me now t r.0 r.1) tag ≡ some true)
          e (mark_node-marks t id n tag on alive j k))

pub keys-In :
    (t : Rows Str Bool) (tag : Str) (b : Bool)
    → row_of Str-discrete t tag ≡ some b
    → In tag (keys t)
keys-In [] tag b h = ground arith
keys-In ((k, v) ∷ t) tag b h = elim (Str-discrete tag k) [
  | yes e ↦ inl e
  | no e ↦ inr (keys-In t tag b (ground arith))
]

pub In-keys :
    (t : Rows Str Bool) (tag : Str)
    → In tag (keys t)
    → (b : Bool) × (row_of Str-discrete t tag ≡ some b)
In-keys [] tag h = elim h [ ]
In-keys ((k, v) ∷ t) tag h = elim (Str-discrete tag k) [
  | yes e ↦ (v, ground arith)
  | no e ↦ elim h [
    | inl f ↦ absurd (e f)
    | inr i ↦ let (b, f) = In-keys t tag i in (b, ground arith)
  ]
]
