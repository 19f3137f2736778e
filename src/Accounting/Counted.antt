-- ===== src/Accounting/Counted.antt =====
-- What is counted of a tunnel, and what is not.
use quic_diver.Base.{
  ℕ, ◌+◌, ◌-◌, ◌^◌, ◌≤◌, ◌<◌, arith, ◌≡◌, refl, ap, ◌∙◌, true, ◌&&◌, ◌==◌, if-cases, Option, none,
  some, List, [], ◌∷◌, row_of, put_row, row_of-delete_row, row_of-put_row_at, Str, Str-discrete,
}
use quic_diver.Store.{StoreError, Session, Traffic, Database, has_token, share}
use quic_diver.Store.Sessions.{
  touched, touch_row, merge_traffic, add_traffic, after_traffic, touch_session, close_session,
}
use quic_diver.Accounting.{Accountant, delta, Tick, flush, run_from, run}

-- The bytes of a client that the database counts, in and out.
abbrev pub counted_in : Database → Str → ℕ
counted_in d hash = share Traffic.bytes_in (row_of Str-discrete d.traffic hash)

abbrev pub counted_out : Database → Str → ℕ
counted_out d hash = share Traffic.bytes_out (row_of Str-discrete d.traffic hash)

-- A database that knows the client, with these bytes counted.
abbrev Has : Str → ℕ → ℕ → Database → Type 0
Has hash i o d = (has_token d hash ≡ true) × (counted_in d hash ≡ i) × (counted_out d hash ≡ o)

touch_row-Has :
    (d : Database) (now : ℕ) (id hash : Str) (i o m n : ℕ)
    → Has hash m n d
    → Has hash m n (touch_row d now id i o)
unfolding touch_row has_token
touch_row-Has d now id hash i o m n h = at (row_of Str-discrete d.sessions id)
  where
    at :
        (r : Option Session)
        → Has hash m n (elim r [
          | none ↦ d
          | some s ↦ record d { sessions = put_row Str-discrete d.sessions id (touched now i o s) }
        ])
    at none = h
    at (some s) = h

merged_in :
    (now i o : ℕ) (r : Option Traffic)
    → (merge_traffic now i o r).bytes_in ≡ share Traffic.bytes_in r + i
unfolding merge_traffic
merged_in now i o none = omega arith
merged_in now i o (some t) = refl

merged_out :
    (now i o : ℕ) (r : Option Traffic)
    → (merge_traffic now i o r).bytes_out ≡ share Traffic.bytes_out r + o
unfolding merge_traffic
merged_out now i o none = omega arith
merged_out now i o (some t) = refl

add_traffic-Has :
    (d : Database) (now : ℕ) (hash : Str) (i o m n : ℕ)
    → Has hash m n d
    → Has hash (m + i) (n + o) (after_traffic d (add_traffic d now hash i o)).0
unfolding add_traffic merge_traffic has_token
add_traffic-Has d now hash i o m n (k, p, q) =
    let t = merge_traffic now i o (row_of Str-discrete d.traffic hash) in
    rw k (
      k,
      rw (row_of-put_row_at Str-discrete d.traffic hash t)
          (merged_in now i o _ ∙ ap (λ (z : ℕ). z + i) p),
      rw (row_of-put_row_at Str-discrete d.traffic hash t)
          (merged_out now i o _ ∙ ap (λ (z : ℕ). z + o) q),
    )

nothing_more :
    (d : Database) (hash : Str) (i o m n : ℕ)
    → (i ≡ 0) × (o ≡ 0)
    → Has hash m n d
    → Has hash (m + i) (n + o) d
nothing_more d hash i o m n e (k, p, q) = (k, omega arith, omega arith)

touch_session-Has :
    (d : Database) (now : ℕ) (id hash : Str) (i o m n : ℕ)
    → Has hash m n d
    → Has hash (m + i) (n + o) (touch_session d now id hash i o).0
unfolding touch_session
touch_session-Has d now id hash i o m n h =
    if-cases (λ (p : Database × Option StoreError). Has hash (m + i) (n + o) p.0) (i == 0 && o == 0)
      _ _
      (λ z.
        nothing_more (touch_row d now id i o) hash i o m n (ground arith)
          (touch_row-Has d now id hash i o m n h))
      (λ nz.
        add_traffic-Has (touch_row d now id i o) now hash i o m n
          (touch_row-Has d now id hash i o m n h))

-- The counters only grow, and stay below 2 ^ 63, so that no difference turns negative as an int64.
abbrev pub IsGrowing : ℕ × ℕ → List Tick → Tick → Type 0
IsGrowing (sent, received) [] t =
    (sent ≤ t.sent) × (received ≤ t.received) × (t.sent < 2 ^ 63) × (t.received < 2 ^ 63)
IsGrowing (sent, received) (s ∷ ss) t =
    (sent ≤ s.sent)
    × (received ≤ s.received)
    × (s.sent < 2 ^ 63)
    × (s.received < 2 ^ 63)
    × IsGrowing (s.sent, s.received) ss t

delta_lem : (new old : ℕ) → old ≤ new → new < 2 ^ 63 → delta new old ≡ new - old
delta_lem new old h k = omega arith

module _ (a : Accountant) where
  flush-Has :
      (d : Database) (sent received m n : ℕ) (t : Tick)
      → (sent ≤ t.sent) × (received ≤ t.received) × (t.sent < 2 ^ 63) × (t.received < 2 ^ 63)
      → Has a.hash (m + received) (n + sent) d
      → Has a.hash (m + t.received) (n + t.sent) (flush a d (sent, received) t)
  unfolding flush
  flush-Has d sent received m n t (h, k, u, v) g =
      let (known, i, o) =
        touch_session-Has d t.now a.id a.hash (delta t.received received) (delta t.sent sent)
          (m + received) (n + sent) g in
      (
        known,
        omega (arith, i, delta_lem t.received received k v),
        omega (arith, o, delta_lem t.sent sent h u),
      )

  run_from-Has :
      (d : Database) (sent received m n : ℕ) (ss : List Tick) (t : Tick)
      → IsGrowing (sent, received) ss t
      → Has a.hash (m + received) (n + sent) d
      → Has a.hash (m + t.received) (n + t.sent) (run_from a d (sent, received) ss t)
  unfolding run_from close_session has_token
  run_from-Has d sent received m n [] t g h = flush-Has d sent received m n t g h
  run_from-Has d sent received m n (s ∷ ss) t (p, q, u, v, g) h =
      run_from-Has (flush a d (sent, received) s) s.sent s.received m n ss t g
        (flush-Has d sent received m n s (p, q, u, v) h)

  -- At the end the session is taken off.
  run_from-closes :
      (d : Database) (last : ℕ × ℕ) (ss : List Tick) (t : Tick)
      → row_of Str-discrete (run_from a d last ss t).sessions a.id ≡ none
  unfolding run_from close_session
  run_from-closes d last [] t =
      ground (arith, row_of-delete_row Str-discrete (flush a d last t).sessions a.id a.id)
  run_from-closes d last (s ∷ ss) t = run_from-closes (flush a d last s) (s.sent, s.received) ss t

-- However the ticks fall: when a tunnel with an accountant has ended, the database counts for its
-- client exactly what it counted before and what the tunnel has carried, in either direction, and the
-- session is gone. The client has to be in the database, and the counters only grow, below 2 ^ 63.
pub run-counts :
    (a : Accountant) (d : Database) (ss : List Tick) (t : Tick)
    → has_token d a.hash ≡ true
    → IsGrowing (0, 0) ss t
    → (counted_in (run (some a) d ss t) a.hash ≡ counted_in d a.hash + t.received)
      × (counted_out (run (some a) d ss t) a.hash ≡ counted_out d a.hash + t.sent)
      × (row_of Str-discrete (run (some a) d ss t).sessions a.id ≡ none)
unfolding run
run-counts a d ss t k g =
    let (known, i, o) =
      run_from-Has a d 0 0 (counted_in d a.hash) (counted_out d a.hash) ss t g
        (k, omega arith, omega arith) in
    (i, o, run_from-closes a d (0, 0) ss t)
