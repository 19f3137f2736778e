-- ===== src/Balancer/Best.antt =====
-- What `bestLocked` finds: the cheapest node that has a fresh sample.
use quic_diver.Base.{
  ℕ, ◌≤◌, ◌≡◌, refl, ap, inl, inr, ◌⊎◌, ◌||◌, true, false, Option, none, some, ltb, List, [], ◌∷◌,
  All, In, Str, arith, Bool-cases, Option-cases, if◌then◌else◌, ltb→lt, ltb→le, subst, sym, ◌∙◌,
}
use quic_diver.Balancer.{
  Balancer, Scan, is_blank, fresh_score, scan_node, scan_nodes, no_scan, scan_result, best_locked,
}

-- Nodes have names.
abbrev pub IsNamed : Str → Type 0
IsNamed n = is_blank n ≡ false

-- The score `v` is at most the score given, if there is one.
abbrev pub Over : ℕ → Option ℕ → Type 0
Over v none = Unit
Over v (some t) = v ≤ t

abbrev pub Lowest : Balancer → ℕ → ℕ → List Str → Type 0
Lowest b now v nodes = All (λ n. Over v (fresh_score b now n)) nodes

abbrev pub head_name : List Str → Str
head_name [] = []
head_name (n ∷ nodes) = n

-- One of the nodes has the lowest fresh score, or none has a fresh score and the first is taken.
abbrev pub IsBest : Balancer → ℕ → List Str → Str → Type 0
IsBest b now nodes r =
    ((s : ℕ) × In r nodes × (fresh_score b now r ≡ some s) × Lowest b now s nodes)
    ⊎ (All (λ n. fresh_score b now n ≡ none) nodes × (r ≡ head_name nodes))

abbrev Wins : Balancer → ℕ → List Str → Scan → Type 0
Wins b now nodes r =
    In r.best nodes
    × IsNamed r.best
    × (fresh_score b now r.best ≡ some r.best_score)
    × Lowest b now r.best_score nodes

abbrev Holds : Balancer → ℕ → Str → ℕ → List Str → Scan → Type 0
Holds b now name v nodes r =
    ((r.best ≡ name) × (r.best_score ≡ v) × Lowest b now v nodes)
    ⊎ (Wins b now nodes r × (r.best_score ≤ v))

abbrev scan_at : Str → ℕ → Str → Scan
scan_at best v fallback = record { best = best; best_score = v; fallback = fallback }

Over-none : (v : ℕ) (o : Option ℕ) → o ≡ none → Over v o
Over-none v o e = rw e tt

Over-some : (v t : ℕ) (o : Option ℕ) → o ≡ some t → v ≤ t → Over v o
Over-some v t o e h = rw e h

Holds-cons :
    (b : Balancer) (now : ℕ) (name : Str) (v : ℕ) (n : Str) (nodes : List Str) (r : Scan)
    → ((w : ℕ) → w ≤ v → Over w (fresh_score b now n))
    → Holds b now name v nodes r
    → Holds b now name v (n ∷ nodes) r
Holds-cons b now name v n nodes r o (inl (e, s, l)) = inl (e, s, (o v (omega arith), l))
Holds-cons b now name v n nodes r o (inr ((i, k, f, l), le)) =
    inr ((inr i, k, f, (o r.best_score le, l)), le)

Wins-new :
    (b : Balancer) (now : ℕ) (n : Str) (s : ℕ) (nodes : List Str) (r : Scan)
    → IsNamed n
    → fresh_score b now n ≡ some s
    → Holds b now n s nodes r
    → Wins b now (n ∷ nodes) r × (r.best_score ≤ s)
Wins-new b now n s nodes r k e (inl (at, same, l)) = (
  (
    inl at,
    ap is_blank at ∙ k,
    ap (fresh_score b now) at ∙ e ∙ ap some (sym same),
    (
      Over-some r.best_score s (fresh_score b now n) e (omega (arith, same)),
      subst (λ v. Lowest b now v nodes) (sym same) l,
    ),
  ),
  omega (arith, same),
)
Wins-new b now n s nodes r k e (inr ((i, named, f, l), le)) =
    ((inr i, named, f, (Over-some r.best_score s (fresh_score b now n) e le, l)), le)

-- A node without a fresh score is at most the one to fall back on.
scan_node-stale :
    (o : Option ℕ) (best : Str) (v : ℕ) (fb n : Str)
    → o ≡ none
    → scan_node (scan_at best v fb) n o ≡ scan_at best v (if is_blank fb then n else fb)
unfolding scan_node
scan_node-stale o best v [] n e = rw e refl
scan_node-stale o best v (c ∷ fb) n e = rw e refl

scan_node-keeps :
    (o : Option ℕ) (c : ℕ) (name : Str) (v : ℕ) (fb n : Str) (s : ℕ)
    → o ≡ some s
    → ltb s v ≡ false
    → scan_node (scan_at (c ∷ name) v fb) n o ≡ scan_at (c ∷ name) v fb
unfolding scan_node
scan_node-keeps o c name v fb n s e l = rw e (rw l refl)

scan_node-takes :
    (o : Option ℕ) (best : Str) (v : ℕ) (fb n : Str) (s : ℕ)
    → o ≡ some s
    → (is_blank best || ltb s v) ≡ true
    → scan_node (scan_at best v fb) n o ≡ scan_at n s fb
unfolding scan_node
scan_node-takes o best v fb n s e l = rw e (rw l refl)

scan_nodes-Holds :
    (b : Balancer) (now c : ℕ) (name : Str) (v : ℕ) (fb : Str) (nodes : List Str)
    → All IsNamed nodes
    → Holds b now (c ∷ name) v nodes (scan_nodes b now (scan_at (c ∷ name) v fb) nodes)
unfolding scan_nodes
scan_nodes-Holds b now c name v fb [] h = inl (refl, refl, tt)
scan_nodes-Holds b now c name v fb ([] ∷ nodes) h = ground (arith, h.0)
scan_nodes-Holds b now c name v fb ((d ∷ n) ∷ nodes) h =
    let o : Option ℕ = fresh_score b now (d ∷ n) in
    let end : Str → ℕ → Str → Scan = λ x w y. scan_nodes b now (scan_at x w y) nodes in
    let Goal : Scan → Type 0 =
      λ a. Holds b now (c ∷ name) v ((d ∷ n) ∷ nodes) (scan_nodes b now a nodes) in
    elim (Option-cases o) [
      | inl e ↦ subst Goal (sym (scan_node-stale o (c ∷ name) v fb (d ∷ n) e)) (
          Holds-cons b now (c ∷ name) v (d ∷ n) nodes
            (end (c ∷ name) v (if is_blank fb then d ∷ n else fb)) (λ w l. Over-none w o e)
            (scan_nodes-Holds b now c name v (if is_blank fb then d ∷ n else fb) nodes h.1))
      | inr (s, e) ↦ elim (Bool-cases (ltb s v)) [
        | inl l ↦ subst Goal (sym (scan_node-takes o (c ∷ name) v fb (d ∷ n) s e l)) (
            let (w, le) =
              Wins-new b now (d ∷ n) s nodes (end (d ∷ n) s fb) refl e
                (scan_nodes-Holds b now d n s fb nodes h.1) in
            inr (w, omega (arith, le, ltb→lt s v l)))
        | inr l ↦ subst Goal (sym (scan_node-keeps o c name v fb (d ∷ n) s e l)) (
            Holds-cons b now (c ∷ name) v (d ∷ n) nodes (end (c ∷ name) v fb)
              (λ w le. Over-some w s o e (omega (arith, le, ltb→le s v l)))
              (scan_nodes-Holds b now c name v fb nodes h.1))
      ]
    ]

-- The name to fall back on at the end.
abbrev first_name : Str → List Str → Str
first_name [] nodes = head_name nodes
first_name (c ∷ fb) nodes = c ∷ fb

abbrev Opens : Balancer → ℕ → Str → List Str → Scan → Type 0
Opens b now fb nodes r =
    Wins b now nodes r
    ⊎ ((r.best ≡ [])
        × All (λ n. fresh_score b now n ≡ none) nodes
        × (r.fallback ≡ first_name fb nodes))

Opens-cons :
    (b : Balancer) (now d : ℕ) (n fb : Str) (nodes : List Str) (r : Scan)
    → fresh_score b now (d ∷ n) ≡ none
    → Opens b now (if is_blank fb then d ∷ n else fb) nodes r
    → Opens b now fb ((d ∷ n) ∷ nodes) r
Opens-cons b now d n fb nodes r e (inl (i, k, f, l)) =
    inl (inr i, k, f, (Over-none r.best_score (fresh_score b now (d ∷ n)) e, l))
Opens-cons b now d n [] nodes r e (inr (at, a, f)) = inr (at, (e, a), f)
Opens-cons b now d n (c ∷ fb) nodes r e (inr (at, a, f)) = inr (at, (e, a), f)

scan_nodes-Opens :
    (b : Balancer) (now v : ℕ) (fb : Str) (nodes : List Str)
    → All IsNamed nodes
    → Opens b now fb nodes (scan_nodes b now (scan_at [] v fb) nodes)
unfolding scan_nodes
scan_nodes-Opens b now v [] [] h = inr (refl, tt, refl)
scan_nodes-Opens b now v (c ∷ fb) [] h = inr (refl, tt, refl)
scan_nodes-Opens b now v fb ([] ∷ nodes) h = ground (arith, h.0)
scan_nodes-Opens b now v fb ((d ∷ n) ∷ nodes) h =
    let o : Option ℕ = fresh_score b now (d ∷ n) in
    let end : Str → ℕ → Str → Scan = λ x w y. scan_nodes b now (scan_at x w y) nodes in
    let Goal : Scan → Type 0 = λ a. Opens b now fb ((d ∷ n) ∷ nodes) (scan_nodes b now a nodes) in
    elim (Option-cases o) [
      | inl e ↦ subst Goal (sym (scan_node-stale o [] v fb (d ∷ n) e)) (
          Opens-cons b now d n fb nodes (end [] v (if is_blank fb then d ∷ n else fb)) e
            (scan_nodes-Opens b now v (if is_blank fb then d ∷ n else fb) nodes h.1))
      | inr (s, e) ↦ subst Goal (sym (scan_node-takes o [] v fb (d ∷ n) s e refl)) (
          inl
            (Wins-new b now (d ∷ n) s nodes (end (d ∷ n) s fb) refl e
              (scan_nodes-Holds b now d n s fb nodes h.1)).0)
    ]

scan_result-IsBest :
    (b : Balancer) (now : ℕ) (nodes : List Str) (r : Scan)
    → Opens b now [] nodes r
    → IsBest b now nodes (scan_result r)
scan_result-IsBest b now nodes r (inl (i, k, f, l)) = rw k (inl (r.best_score, i, f, l))
scan_result-IsBest b now nodes r (inr (at, a, f)) = rw at (inr (a, f))

-- `bestLocked` finds a candidate with a fresh sample whose score no fresh candidate beats; if no
-- candidate has a fresh sample, it takes the first.
pub best_locked-IsBest :
    (b : Balancer) (now : ℕ) (nodes : List Str)
    → All IsNamed nodes
    → IsBest b now nodes (best_locked b now nodes)
unfolding best_locked
best_locked-IsBest b now nodes h =
    scan_result-IsBest b now nodes (scan_nodes b now no_scan nodes)
      (scan_nodes-Opens b now 0 [] nodes h)
