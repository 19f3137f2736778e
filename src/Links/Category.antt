-- ===== src/Links/Category.antt =====
-- The node for a label auto:<tag>.
use quic_diver.Base.{
  ℕ, arith, ◌≡◌, refl, sym, ap, subst, Bool, true, false, not, ◌||◌, if-cases, Bool-cases, ◌⊎◌, inl,
  inr, List, [], ◌∷◌, Rows, All, In, Str,
}
use quic_diver.Store.{Node, same_text}
use quic_diver.Store.Nodes.{has_tag}
use quic_diver.Balancer.{pick}
use quic_diver.Balancer.Best.{IsNamed}
use quic_diver.Balancer.Switch.{pick-In}
use quic_diver.Links.{NodeLinks, candidates, pick_by_category}

-- The node is enabled, and of this tag or category.
abbrev pub IsCandidate : Node → Str → Type 0
IsCandidate n tag = (n.enabled ≡ true) × (has_tag n.tags tag || same_text n.category tag ≡ true)

-- A candidate of this name in the registry.
abbrev pub HasCandidate : Rows Str Node → Str → Str → Type 0
HasCandidate ns tag id = (n : Node) × In (id, n) ns × IsCandidate n tag

abbrev pub AllNamed : Rows Str Node → Type 0
AllNamed ns = All (λ (r : Str × Node). IsNamed r.0) ns

more :
    (ns : Rows Str Node) (tag id j : Str) (m : Node)
    → HasCandidate ns tag id
    → HasCandidate ((j, m) ∷ ns) tag id
more ns tag id j m (n, i, c) = (n, inr i, c)

candidates_fit :
    (ns : Rows Str Node) (tag j : Str) (n : Node)
    → IsCandidate n tag
    → candidates ((j, n) ∷ ns) tag ≡ j ∷ candidates ns tag
unfolding candidates
candidates_fit ns tag j n (on, fits) = rw (on, fits) refl

candidates-In :
    (ns : Rows Str Node) (tag id : Str) → In id (candidates ns tag) → HasCandidate ns tag id
unfolding candidates
candidates-In [] tag id h = elim h [ ]
candidates-In ((j, n) ∷ ns) tag id h = elim (Bool-cases n.enabled) [
  | inr off ↦ more ns tag id j n (candidates-In ns tag id (rw off at h))
  | inl on ↦ elim (Bool-cases (has_tag n.tags tag || same_text n.category tag)) [
    | inr other ↦ more ns tag id j n (candidates-In ns tag id (rw (on, other) at h))
    | inl fits ↦
        elim (subst (λ (xs : List Str). In id xs) (candidates_fit ns tag j n (on, fits)) h) [
          | inl e ↦ (n, inl (ap (λ (k : Str). (k, n)) e), (on, fits))
          | inr i ↦ more ns tag id j n (candidates-In ns tag id i)
        ]
  ]
]

candidates-none :
    (ns : Rows Str Node) (tag : Str)
    → candidates ns tag ≡ []
    → (id : Str) → ¬ HasCandidate ns tag id
unfolding candidates
candidates-none [] tag h id (n, i, c) = elim i [ ]
candidates-none ((j, m) ∷ ns) tag h id (n, i, c) = elim (Bool-cases m.enabled) [
  | inr off ↦ elim i [
    | inl e ↦ absurd_off off (subst (λ (r : Str × Node). r.1.enabled ≡ true) e c.0)
    | inr k ↦ candidates-none ns tag (rw off at h) id (n, k, c)
  ]
  | inl on ↦ elim (Bool-cases (has_tag m.tags tag || same_text m.category tag)) [
    | inl fits ↦ ground (arith, candidates_fit ns tag j m (on, fits))
    | inr other ↦ elim i [
      | inl e ↦ absurd_off other (
          subst (λ (r : Str × Node). has_tag r.1.tags tag || same_text r.1.category tag ≡ true) e
            c.1)
      | inr k ↦ candidates-none ns tag (rw (on, other) at h) id (n, k, c)
    ]
  ]
]
  where
    absurd_off : {b : Bool} → b ≡ false → b ≡ true → ⊥
    absurd_off e f = ground arith

candidates-AllNamed :
    (ns : Rows Str Node) (tag : Str) → AllNamed ns → All IsNamed (candidates ns tag)
unfolding candidates
candidates-AllNamed [] tag h = tt
candidates-AllNamed ((j, n) ∷ ns) tag (k, h) =
    if-cases (All IsNamed) (not n.enabled) _ _ (λ e. candidates-AllNamed ns tag h)
      (λ e.
        if-cases (All IsNamed) (has_tag n.tags tag || same_text n.category tag) _ _
          (λ f. (k, candidates-AllNamed ns tag h)) (λ f. candidates-AllNamed ns tag h))

-- If the names of the registry are not empty, `pickByCategory` answers with the name of a node of the
-- registry that is enabled and has the tag or is of the category; with the empty name only if there is
-- none.
pub pick_by_category-Serves :
    (l : NodeLinks) (now : ℕ) (tag : Str)
    → AllNamed l.nodes
    → (let id = (pick_by_category l now tag).1 in
        HasCandidate l.nodes tag id ⊎ ((id ≡ []) × ((j : Str) → ¬ HasCandidate l.nodes tag j)))
unfolding pick_by_category pick
pick_by_category-Serves l now tag named = at (candidates l.nodes tag) refl
  where
    at :
        (cs : List Str)
        → candidates l.nodes tag ≡ cs
        → (let id = (pick l.balance now tag cs).1 in
            HasCandidate l.nodes tag id ⊎ ((id ≡ []) × ((j : Str) → ¬ HasCandidate l.nodes tag j)))
    at [] e = inr (refl, candidates-none l.nodes tag e)
    at (c ∷ cs) e = inl (
        candidates-In l.nodes tag (pick l.balance now tag (c ∷ cs)).1 (
          subst (λ (xs : List Str). In (pick l.balance now tag (c ∷ cs)).1 xs) (sym e)
            (pick-In l.balance now tag c cs
              (subst (All IsNamed) e (candidates-AllNamed l.nodes tag named))).0))
