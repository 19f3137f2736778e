-- ===== src/Heartbeat/Synced.antt =====
-- Beats that get through: the master counts for the node what the node counts.
use quic_diver.Base.{
  ℕ, arith, ◌≡◌, refl, sym, ap, subst, ◌∙◌, Bool, true, false, ltb, ◌||◌, Option, none, some, List,
  [], ◌∷◌, Map, Rows, IsTable, row_of, put_row, Str, Str-discrete,
}
use quic_diver.Store.{Result, TokenRow, Traffic, Node, Database, Pair-discrete, has_token, share}
use quic_diver.Store.Reports.{NodeTraffic, report_node_traffic, local_traffic_report}
use quic_diver.Store.Reports.Again.{reported, reported_row, Delivers, report_node_traffic-Delivers}
use quic_diver.Store.Nodes.{node_by_token_hash, touch_node}
use quic_diver.Heartbeat.{
  Beater, beat_of, beat_linked, report, report_changed, reported_or_not, logged,
}
use quic_diver.Heartbeat.Changed.{newest, report_changed-sent, report_changed-rows, local_row}

-- The row of the node at the master, for a client.
abbrev pub counters : Database → Str → Str → Option Traffic
counters m node hash = row_of Pair-discrete m.node_traffic (node, hash)

-- The row counts these bytes.
abbrev pub Counts : Option Traffic → ℕ → ℕ → Type 0
Counts o i j = (share Traffic.bytes_in o ≡ i) × (share Traffic.bytes_out o ≡ j)

-- What counts as sent is what the master counts for the node, for every client that it knows.
abbrev pub IsSynced : Map Str (ℕ × ℕ) → Database → Str → Type 0
IsSynced sent m node =
    (c : ℕ) (h : Str) (i j : ℕ)
    → has_token m (c ∷ h) ≡ true
    → sent (c ∷ h) ≡ some (i, j)
    → Counts (counters m node (c ∷ h)) i j

module _ (m : Database) (now x : ℕ) (id : Str) where
  logged-row :
      (rows : List NodeTraffic) (r : Result Database) (c : ℕ) (h : Str)
      → Delivers m now (x ∷ id) rows r
      → has_token m (c ∷ h) ≡ true
      → counters (logged m r) (x ∷ id) (c ∷ h)
        ≡ reported_row now (reported rows (c ∷ h)) (counters m (x ∷ id) (c ∷ h))
  logged-row rows (Result.failed e) c h g k = elim g [ ]
  logged-row rows (Result.done m') c h g k = ((g c h).1 k).0

  logged-token :
      (rows : List NodeTraffic) (r : Result Database) (c : ℕ) (h : Str)
      → Delivers m now (x ∷ id) rows r
      → has_token (logged m r) (c ∷ h) ≡ has_token m (c ∷ h)
  logged-token rows (Result.failed e) c h g = elim g [ ]
  logged-token rows (Result.done m') c h g = (g c h).0

  delivered_row :
      (rows : List NodeTraffic) (c : ℕ) (h : Str)
      → has_token m (c ∷ h) ≡ true
      → counters (reported_or_not m now (x ∷ id) rows) (x ∷ id) (c ∷ h)
        ≡ reported_row now (reported rows (c ∷ h)) (counters m (x ∷ id) (c ∷ h))
  unfolding reported
  delivered_row [] c h k = refl
  delivered_row (r ∷ rs) c h k =
      logged-row (r ∷ rs) (report_node_traffic m now (x ∷ id) (r ∷ rs)) c h
        (report_node_traffic-Delivers m now x id (r ∷ rs)) k

  delivered_token :
      (rows : List NodeTraffic) (c : ℕ) (h : Str)
      → has_token (reported_or_not m now (x ∷ id) rows) (c ∷ h) ≡ has_token m (c ∷ h)
  delivered_token [] c h = refl
  delivered_token (r ∷ rs) c h =
      logged-token (r ∷ rs) (report_node_traffic m now (x ∷ id) (r ∷ rs)) c h
        (report_node_traffic-Delivers m now x id (r ∷ rs))

-- The row that a report leaves counts what counts as sent from then on.
reported_row-Counts :
    (now i j : ℕ) (q : Option NodeTraffic) (was : Option (ℕ × ℕ)) (old : Option Traffic)
    → newest q was ≡ some (i, j)
    → (was ≡ some (i, j) → Counts old i j)
    → Counts (reported_row now q old) i j
reported_row-Counts now i j none was old e h = h e
reported_row-Counts now i j (some r) was old e h = ground arith

-- `has_token` on the rows.
abbrev known_in : Rows Str TokenRow → Str → Bool
known_in t hash = elim (row_of Str-discrete t hash) [ none ↦ false | some r ↦ true ]

touch_node-same :
    (m : Database) (now : ℕ) (id : Str)
    → ((touch_node m now id).node_traffic ≡ m.node_traffic)
      × ((touch_node m now id).tokens ≡ m.tokens)
unfolding touch_node
touch_node-same m now id = at (row_of Str-discrete m.nodes id)
  where
    at :
        (o : Option Node)
        → (let m' : Database = elim o [
          | none ↦ m
          | some n ↦ record m {
            nodes = put_row Str-discrete m.nodes id (record n { last_seen = now });
          }
        ] in
            (m'.node_traffic ≡ m.node_traffic) × (m'.tokens ≡ m.tokens))
    at none = (refl, refl)
    at (some n) = (refl, refl)

module _ (m : Database) (now x : ℕ) (id hash : Str) (n : Node) where
  beat_of-store :
      (rows : List NodeTraffic)
      → node_by_token_hash m hash ≡ some (x ∷ id, n)
      → (beat_of m now hash rows).1 ≡ reported_or_not (touch_node m now (x ∷ id)) now (x ∷ id) rows
  unfolding beat_of
  beat_of-store rows e = rw (e, beat_of)

  beat_of-token :
      (rows : List NodeTraffic) (c : ℕ) (h : Str)
      → node_by_token_hash m hash ≡ some (x ∷ id, n)
      → has_token (beat_of m now hash rows).1 (c ∷ h) ≡ has_token m (c ∷ h)
  unfolding has_token
  beat_of-token rows c h e =
      let (traffic, tokens) = touch_node-same m now (x ∷ id) in
      ap (λ (z : Database). has_token z (c ∷ h)) (beat_of-store rows e)
      ∙ delivered_token (touch_node m now (x ∷ id)) now x id rows c h
      ∙ ap (λ (t : Rows Str TokenRow). known_in t (c ∷ h)) tokens

  beat_of-row :
      (rows : List NodeTraffic) (c : ℕ) (h : Str)
      → node_by_token_hash m hash ≡ some (x ∷ id, n)
      → has_token m (c ∷ h) ≡ true
      → counters (beat_of m now hash rows).1 (x ∷ id) (c ∷ h)
        ≡ reported_row now (reported rows (c ∷ h)) (counters m (x ∷ id) (c ∷ h))
  unfolding has_token
  beat_of-row rows c h e k =
      let (traffic, tokens) = touch_node-same m now (x ∷ id) in
      ap (λ (z : Database). counters z (x ∷ id) (c ∷ h)) (beat_of-store rows e)
      ∙ delivered_row (touch_node m now (x ∷ id)) now x id rows c h
          (ap (λ (t : Rows Str TokenRow). known_in t (c ∷ h)) tokens ∙ k)
      ∙ ap
          (λ (t : Rows (Str × Str) Traffic).
            reported_row now (reported rows (c ∷ h)) (row_of Pair-discrete t (x ∷ id, c ∷ h)))
          traffic

  -- Rows that bring what counts as sent up to date bring the master up to date.
  beat_of-IsSynced :
      (sent : Map Str (ℕ × ℕ)) (rows : List NodeTraffic)
      → node_by_token_hash m hash ≡ some (x ∷ id, n)
      → IsSynced sent m (x ∷ id)
      → IsSynced (λ h. newest (reported rows h) (sent h)) (beat_of m now hash rows).1 (x ∷ id)
  beat_of-IsSynced sent rows e s c h i j known now_sent =
      let k = sym (beat_of-token rows c h e) ∙ known in
      subst (λ o. Counts o i j) (sym (beat_of-row rows c h e k))
        (reported_row-Counts now i j (reported rows (c ∷ h)) (sent (c ∷ h))
          (counters m (x ∷ id) (c ∷ h)) now_sent (s c h i j k))

-- A beat over a link that is up, to a master that has the node in its registry: if what counted as
-- sent was what the master counts for the node, so it is afterwards; and for every client that the
-- master knows it then counts for the node exactly what the node counts, unless that is nothing.
pub beat_linked-IsSynced :
    (m d : Database) (now x : ℕ) (id hash : Str) (n : Node) (b : Beater)
    → node_by_token_hash m hash ≡ some (x ∷ id, n)
    → IsSynced b.sent m (x ∷ id)
    → IsTable Str-discrete d.traffic
    → (let m' = (beat_of m now hash (report b d).0).1 in
        let r = beat_linked (λ rows. some (beat_of m now hash rows).0) d now b in
        IsSynced r.beater.sent m' (x ∷ id)
        × ((c : ℕ) (h : Str) (v : Traffic)
            → has_token m (c ∷ h) ≡ true
            → row_of Str-discrete d.traffic (c ∷ h) ≡ some v
            → ltb 0 v.bytes_in || ltb 0 v.bytes_out ≡ true
            → Counts (counters m' (x ∷ id) (c ∷ h)) v.bytes_in v.bytes_out))
unfolding beat_linked report local_traffic_report
beat_linked-IsSynced m d now x id hash n b e s u =
    let rs = local_traffic_report d in
    let (rows, sent') = report_changed b.sent rs in
    let synced = beat_of-IsSynced m now x id hash n b.sent rows e s in
    let all : IsSynced sent' (beat_of m now hash rows).1 (x ∷ id) =
      λ c h i j k p. synced c h i j k (report_changed-rows b.sent rs (c ∷ h) ∙ p) in
    (
      all,
      λ c h v k row some_.
          all c h v.bytes_in v.bytes_out (beat_of-token m now x id hash n rows c h e ∙ k) (
            report_changed-sent b.sent rs (c ∷ h)
            ∙ ap (λ q. newest q (b.sent (c ∷ h))) (local_row d.traffic (c ∷ h) v u row some_)),
    )
