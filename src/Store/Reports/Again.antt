-- ===== src/Store/Reports/Again.antt =====
-- A report that is delivered, late and again, and the totals of the network.
use quic_diver.Base.{
  ℕ, ◌+◌, arith, ◌≡◌, ◌≢◌, refl, sym, ap, ap₂, subst, ◌∙◌, inl, inr, true, false, if◌then◌else◌,
  Bool-cases, Option, none, some, List, [], ◌∷◌, row_of, put_row, keep_rows, row_of-put_row_at,
  row_of-put_row_other, Str, Str-discrete,
}
use quic_diver.Store.{
  Result, Traffic, Database, Pair-discrete, same_text, same_text_refl, same_text-eq, same_text-ne,
  has_token, token_row_by_hash, share,
}
use quic_diver.Store.Reports.{
  NodeTraffic, ByNode, report_row, report_rows, of_known_token, report_node_traffic, sum_of,
  network_traffic_of,
}

-- The last entry of a report for a client.
unfoldable pub reported : List NodeTraffic → Str → Option NodeTraffic
unfolding same_text
reported [] hash = none
reported (r ∷ rs) hash = elim (reported rs hash) [
  | some q ↦ some q
  | none ↦ if same_text r.token_hash hash then some r else none
]

-- The row that an entry leaves.
abbrev pub row_from : ℕ → NodeTraffic → Traffic
row_from now r = record { bytes_in = r.bytes_in; bytes_out = r.bytes_out; updated = now }

abbrev pub reported_row : ℕ → Option NodeTraffic → Option Traffic → Option Traffic
reported_row now none old = old
reported_row now (some r) old = some (row_from now r)

keep_rows-row :
    (d : Database) (t : ByNode) (k : Str × Str)
    → has_token d k.1 ≡ true
    → row_of Pair-discrete (keep_rows (of_known_token d) t) k ≡ row_of Pair-discrete t k
unfolding of_known_token
keep_rows-row d [] k h = refl
keep_rows-row d ((j, v) ∷ t) k h = ground (arith, keep_rows-row d t k h)

report_row-row :
    (t : ByNode) (now : ℕ) (node : Str) (r : NodeTraffic) (c : ℕ) (h : Str)
    → row_of Pair-discrete (report_row t now node r) (node, c ∷ h) ≡ (
        if same_text r.token_hash (c ∷ h)
        then some (row_from now r)
        else row_of Pair-discrete t (node, c ∷ h))
unfolding report_row
report_row-row t now node r c h = at r.token_hash refl
  where
    at :
        (k : Str)
        → r.token_hash ≡ k
        → row_of Pair-discrete
            (elim k [ [] ↦ t | x ∷ k' ↦ put_row Pair-discrete t (node, x ∷ k') (row_from now r) ])
            (node, c ∷ h)
          ≡ (if same_text k (c ∷ h)
              then some (row_from now r)
              else row_of Pair-discrete t (node, c ∷ h))
    at [] e = rw (same_text-ne [] (c ∷ h) (λ p. cc))
    at (x ∷ k) e = elim (Str-discrete (x ∷ k) (c ∷ h)) [
      | yes p ↦
          rw p (rw (same_text_refl (c ∷ h)) (row_of-put_row_at Pair-discrete t (node, c ∷ h) _))
      | no q ↦ rw (same_text-ne (x ∷ k) (c ∷ h) q) (
          row_of-put_row_other Pair-discrete t (node, x ∷ k) (node, c ∷ h) _
            (λ e. q (sym (ap (λ (z : Str × Str). z.1) e))))
    ]

report_rows-row :
    (t : ByNode) (now : ℕ) (node : Str) (rs : List NodeTraffic) (c : ℕ) (h : Str)
    → row_of Pair-discrete (report_rows t now node rs) (node, c ∷ h)
      ≡ reported_row now (reported rs (c ∷ h)) (row_of Pair-discrete t (node, c ∷ h))
unfolding report_rows reported
report_rows-row t now node [] c h = refl
report_rows-row t now node (r ∷ rs) c h =
    report_rows-row (report_row t now node r) now node rs c h
    ∙ ground (arith, report_row-row t now node r c h)

module _ (f : Traffic → ℕ) (hash : Str) where
  sum_of-put_row :
      (t : ByNode) (node : Str) (v : Traffic)
      → sum_of f hash (put_row Pair-discrete t (node, hash) v)
          + share f (row_of Pair-discrete t (node, hash))
        ≡ sum_of f hash t + f v
  unfolding sum_of
  sum_of-put_row [] node v = rw (same_text_refl hash) (omega arith)
  sum_of-put_row ((k, w) ∷ t) node v = elim (Pair-discrete (node, hash) k) [
    | yes p ↦
        let e : same_text k.1 hash ≡ true = rw (← p) (same_text_refl hash) in ground (arith, e)
    | no q ↦ ground (arith, sum_of-put_row t node v)
  ]

  sum_of-put_row_other :
      (t : ByNode) (node other : Str) (v : Traffic)
      → other ≢ hash
      → sum_of f hash (put_row Pair-discrete t (node, other) v) ≡ sum_of f hash t
  unfolding sum_of
  sum_of-put_row_other [] node other v q = rw (same_text-ne other hash q) (omega arith)
  sum_of-put_row_other ((k, w) ∷ t) node other v q = elim (Pair-discrete (node, other) k) [
    | yes p ↦
        let e : same_text k.1 hash ≡ false = rw (← p) (same_text-ne other hash q) in
        ground (arith, e)
    | no r ↦ ground (arith, sum_of-put_row_other t node other v q)
  ]

  sum_of-keep_rows :
      (d : Database) (t : ByNode)
      → sum_of f hash (keep_rows (of_known_token d) t)
        ≡ (if has_token d hash then sum_of f hash t else 0)
  unfolding sum_of of_known_token
  sum_of-keep_rows d [] = ground arith
  sum_of-keep_rows d ((k, w) ∷ t) = elim (Bool-cases (same_text k.1 hash)) [
    | inl e ↦
        let p : has_token d k.1 ≡ has_token d hash = ap (has_token d) (same_text-eq k.1 hash e) in
        ground (arith, e, p, sum_of-keep_rows d t)
    | inr e ↦ ground (arith, e, sum_of-keep_rows d t)
  ]

module _ (f : Traffic → ℕ) (now : ℕ) (node : Str) (c : ℕ) (h : Str) where
  sum_of-report_row :
      (t : ByNode) (r : NodeTraffic)
      → sum_of f (c ∷ h) (report_row t now node r) + share f (row_of Pair-discrete t (node, c ∷ h))
        ≡ sum_of f (c ∷ h) t
          + share f (row_of Pair-discrete (report_row t now node r) (node, c ∷ h))
  unfolding report_row
  sum_of-report_row t r = at r.token_hash
    where
      at :
          (k : Str)
          → (let t' : ByNode = elim k [
            | [] ↦ t
            | x ∷ k' ↦ put_row Pair-discrete t (node, x ∷ k') (row_from now r)
          ] in
              sum_of f (c ∷ h) t' + share f (row_of Pair-discrete t (node, c ∷ h))
              ≡ sum_of f (c ∷ h) t + share f (row_of Pair-discrete t' (node, c ∷ h)))
      at [] = refl
      at (x ∷ k) = elim (Str-discrete (x ∷ k) (c ∷ h)) [
        | yes p ↦ rw p (
            rw (row_of-put_row_at Pair-discrete t (node, c ∷ h) (row_from now r))
              (sum_of-put_row f (c ∷ h) t node (row_from now r)))
        | no q ↦
            ap₂ (λ (a : ℕ) (o : Option Traffic). a + share f o)
              (sum_of-put_row_other f (c ∷ h) t node (x ∷ k) (row_from now r) q)
              (sym (
                row_of-put_row_other Pair-discrete t (node, x ∷ k) (node, c ∷ h) (row_from now r)
                  (λ e. q (sym (ap (λ (z : Str × Str). z.1) e)))))
      ]

  sum_of-report_rows :
      (t : ByNode) (rs : List NodeTraffic)
      → sum_of f (c ∷ h) (report_rows t now node rs)
          + share f (row_of Pair-discrete t (node, c ∷ h))
        ≡ sum_of f (c ∷ h) t
          + share f (row_of Pair-discrete (report_rows t now node rs) (node, c ∷ h))
  unfolding report_rows
  sum_of-report_rows t [] = refl
  sum_of-report_rows t (r ∷ rs) =
      omega (arith, sum_of-report_row t r, sum_of-report_rows (report_row t now node r) rs)

kept_sum :
    (f : Traffic → ℕ) (hash : Str) (d : Database) (t : ByNode)
    → has_token d hash ≡ true
    → sum_of f hash (keep_rows (of_known_token d) t) ≡ sum_of f hash t
kept_sum f hash d t k = ground (arith, sum_of-keep_rows f hash d t)

unknown_sum :
    (f : Traffic → ℕ) (hash : Str) (d : Database) (t : ByNode)
    → has_token d hash ≡ false
    → sum_of f hash (keep_rows (of_known_token d) t) ≡ 0
unknown_sum f hash d t k = ground (arith, sum_of-keep_rows f hash d t)

-- Reported again, an entry leaves the bytes of its row as they are.
bytes_in_again :
    (now now' : ℕ) (o : Option NodeTraffic) (old : Option Traffic)
    → share Traffic.bytes_in (reported_row now' o (reported_row now o old))
      ≡ share Traffic.bytes_in (reported_row now o old)
bytes_in_again now now' none old = refl
bytes_in_again now now' (some r) old = refl

bytes_out_again :
    (now now' : ℕ) (o : Option NodeTraffic) (old : Option Traffic)
    → share Traffic.bytes_out (reported_row now' o (reported_row now o old))
      ≡ share Traffic.bytes_out (reported_row now o old)
bytes_out_again now now' none old = refl
bytes_out_again now now' (some r) old = refl

-- What a report may leave behind: for a client of the node's database the row of the node is the
-- last entry of the report, or as before without one, and the total of the network moves by exactly
-- as much as this row; nothing is kept of other clients.
abbrev pub Delivers : Database → ℕ → Str → List NodeTraffic → Result Database → Type 0
Delivers d now node rs (Result.failed e) = ⊥
Delivers d now node rs (Result.done d') =
    (c : ℕ) (h : Str)
    → (has_token d' (c ∷ h) ≡ has_token d (c ∷ h))
      × (has_token d (c ∷ h) ≡ true
          → (row_of Pair-discrete d'.node_traffic (node, c ∷ h)
              ≡ reported_row now (reported rs (c ∷ h))
                  (row_of Pair-discrete d.node_traffic (node, c ∷ h)))
            × ((f : Traffic → ℕ)
                → sum_of f (c ∷ h) d'.node_traffic
                    + share f (row_of Pair-discrete d.node_traffic (node, c ∷ h))
                  ≡ sum_of f (c ∷ h) d.node_traffic
                    + share f (row_of Pair-discrete d'.node_traffic (node, c ∷ h))))
      × (has_token d (c ∷ h) ≡ false → network_traffic_of d' (c ∷ h) ≡ (0, 0))

-- A report of a node leaves, for every client of the database, the last entry of the report as
-- the row of the node, or the row of before without one, and the total of the network moves by
-- exactly as much as this row; of a client that is not in the database nothing is counted any
-- more.
pub report_node_traffic-Delivers :
    (d : Database) (now : ℕ) (x : ℕ) (node : Str) (rs : List NodeTraffic)
    → Delivers d now (x ∷ node) rs (report_node_traffic d now (x ∷ node) rs)
unfolding report_node_traffic network_traffic_of has_token token_row_by_hash
report_node_traffic-Delivers d now x node rs c h =
    let t = report_rows d.node_traffic now (x ∷ node) rs in
    (
      refl,
      (λ k.
          let row = keep_rows-row d t (x ∷ node, c ∷ h) k in
          (
            row ∙ report_rows-row d.node_traffic now (x ∷ node) rs c h,
            λ f. omega (
              arith,
              kept_sum f (c ∷ h) d t k,
              ap (share f) row,
              sum_of-report_rows f now (x ∷ node) c h d.node_traffic rs,
            ),
          )),
      (λ k.
          ap₂ (λ (a b : ℕ). (a, b)) (unknown_sum Traffic.bytes_in (c ∷ h) d t k)
            (unknown_sum Traffic.bytes_out (c ∷ h) d t k)),
    )

-- A report that is delivered a second time changes the total of no client.
pub report_again :
    (d d' d'' : Database) (now now' : ℕ) (x : ℕ) (node : Str) (rs : List NodeTraffic)
    → report_node_traffic d now (x ∷ node) rs ≡ Result.done d'
    → report_node_traffic d' now' (x ∷ node) rs ≡ Result.done d''
    → (c : ℕ) (h : Str) → network_traffic_of d'' (c ∷ h) ≡ network_traffic_of d' (c ∷ h)
unfolding network_traffic_of
report_again d d' d'' now now' x node rs p q c h =
    let o = reported rs (c ∷ h) in
    let old = row_of Pair-discrete d.node_traffic (x ∷ node, c ∷ h) in
    let (same, known, unknown) =
      subst (Delivers d now (x ∷ node) rs) p (report_node_traffic-Delivers d now x node rs) c h in
    let (same', known', unknown') =
      subst (Delivers d' now' (x ∷ node) rs) q (report_node_traffic-Delivers d' now' x node rs) c
        h in
    elim (Bool-cases (has_token d (c ∷ h))) [
      | inr k ↦ unknown' (same ∙ k) ∙ sym (unknown k)
      | inl k ↦
          let (row, sums) = known k in
          let (row', sums') = known' (same ∙ k) in
          let again = row' ∙ ap (reported_row now' o) row in
          ap₂ (λ (a b : ℕ). (a, b))
            (omega (
              arith,
              sums' Traffic.bytes_in,
              ap (share Traffic.bytes_in) again,
              ap (share Traffic.bytes_in) row,
              bytes_in_again now now' o old,
            ))
            (omega (
              arith,
              sums' Traffic.bytes_out,
              ap (share Traffic.bytes_out) again,
              ap (share Traffic.bytes_out) row,
              bytes_out_again now now' o old,
            ))
    ]
