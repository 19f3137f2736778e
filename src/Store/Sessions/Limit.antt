-- ===== src/Store/Sessions/Limit.antt =====
-- The number of sessions of a client, along any sequence of the operations on sessions.
use quic_diver.Base.{
  ℕ, ◌+◌, ◌-◌, ◌≤◌, ◌<◌, arith, ◌≡◌, refl, sym, inl, inr, Bool-cases, true, ◌&&◌, ◌==◌, subst,
  if-cases, if◌then◌else◌, Option-cases, Option, none, some, row_of, put_row, count_rows,
  count_rows-put_row, count_rows-put_row_old, count_rows-keep_rows, count_rows-delete_row, Str,
  Str-discrete,
}
use quic_diver.Store.{StoreError, Result, Session, Database, same_text, same_text-eq, has_token}
use quic_diver.Store.Sessions.{
  is_session_of, session_count, new_session, has_room, insert_session, touched, touch_row,
  add_traffic, after_traffic, touch_session, close_session, sweep_sessions, is_recent,
}

-- How many openings of a client are between their two statements.
abbrev pub Pending : Type 0
Pending = Str → ℕ

abbrev pub none_pending : Pending
none_pending hash = 0

abbrev pub one_more : Pending → Str → Pending
one_more p hash h = if same_text h hash then p h + 1 else p h

-- One statement on the sessions, where at most `most` openings of a client are under way at once. An
-- opening that found room (`counts`) inserts its session later, or fails to (`inserts`, `drops`).
pub data Step (limit : Str → ℕ) (most : ℕ) : Database → Pending → Database → Pending → Type 0 where
  counts :
      {d : Database} {p : Pending} (hash : Str)
      → has_room d hash (limit hash) ≡ true
      → p hash < most
      → Step limit most d p d (one_more p hash)
  inserts :
      {d d' : Database} {p : Pending} (now : ℕ) (id : Str) (s : Session)
      → insert_session d now id s ≡ Result.done d'
      → Step limit most d (one_more p s.token_hash) d' p
  drops : {d : Database} {p : Pending} (hash : Str) → Step limit most d (one_more p hash) d p
  touches :
      {d : Database} {p : Pending} (now : ℕ) (id hash : Str) (delta_in delta_out : ℕ)
      → Step limit most d p (touch_session d now id hash delta_in delta_out).0 p
  closes : {d : Database} {p : Pending} (id : Str) → Step limit most d p (close_session d id) p
  sweeps :
      {d : Database} {p : Pending} (now older_than : ℕ)
      → Step limit most d p (sweep_sessions d now older_than).0 p

pub data Steps (limit : Str → ℕ) (most : ℕ) : Database → Pending → Database → Pending → Type 0 where
  halt : {d : Database} {p : Pending} → Steps limit most d p d p
  steps :
      {d e f : Database} {p q r : Pending}
      → Step limit most d p e q
      → Steps limit most e q f r
      → Steps limit most d p f r

-- A client with a limit has at most `extra` sessions more than it, those under way included.
abbrev pub IsBounded : (Str → ℕ) → ℕ → Database → Pending → Type 0
IsBounded limit extra d p =
    (hash : Str) → 0 < limit hash → session_count d hash + p hash ≤ limit hash + extra

-- A row that is put counts at most once more.
count_put :
    (d : Database) (id hash : Str) (s : Session)
    → count_rows (is_session_of hash) (put_row Str-discrete d.sessions id s)
      ≤ session_count d hash + (if is_session_of hash id s then 1 else 0)
unfolding session_count
count_put d id hash s = elim (Option-cases (row_of Str-discrete d.sessions id)) [
  | inl e ↦ omega (arith, count_rows-put_row Str-discrete (is_session_of hash) d.sessions id s e)
  | inr (t, e) ↦
      omega (arith, count_rows-put_row_old Str-discrete (is_session_of hash) d.sessions id s t e)
]

-- The client of the session has one more at most, any other client none.
abbrev CountsOne : Database → Str → Str → Result Database → Type 0
CountsOne d hash owner (Result.failed e) = Unit
CountsOne d hash owner (Result.done d') =
    session_count d' hash ≤ session_count d hash + (if same_text hash owner then 1 else 0)

insert_row-count :
    (d : Database) (now : ℕ) (id : Str) (s : Session) (hash : Str)
    → CountsOne d hash s.token_hash (
        Result.done
          (record d { sessions = put_row Str-discrete d.sessions id (new_session now s) }))
unfolding session_count is_session_of new_session same_text
insert_row-count d now id s hash =
    let c = count_put d id hash (new_session now s) in
    elim (Str-discrete s.token_hash hash) [
      | yes same ↦ ground (arith, c)
      | no other ↦ ground (arith, c)
    ]

insert_session-count :
    (d : Database) (now : ℕ) (id : Str) (s : Session) (hash : Str)
    → CountsOne d hash s.token_hash (insert_session d now id s)
unfolding insert_session
insert_session-count d now id s hash =
    if-cases (CountsOne d hash s.token_hash) (has_token d s.token_hash) _ _
      (λ k. insert_row-count d now id s hash) (λ k. tt)

touch_row-count :
    (d : Database) (now : ℕ) (id : Str) (delta_in delta_out : ℕ) (hash : Str)
    → session_count (touch_row d now id delta_in delta_out) hash ≡ session_count d hash
unfolding touch_row touched session_count is_session_of
touch_row-count d now id delta_in delta_out hash = at (row_of Str-discrete d.sessions id) refl
  where
    at :
        (o : Option Session)
        → row_of Str-discrete d.sessions id ≡ o
        → session_count
            (elim o [
              | none ↦ d
              | some s ↦ record d {
                sessions = put_row Str-discrete d.sessions id (touched now delta_in delta_out s);
              }
            ])
            hash
          ≡ session_count d hash
    at none e = refl
    at (some s) e = omega (
      arith,
      count_rows-put_row_old Str-discrete (is_session_of hash) d.sessions id
          (touched now delta_in delta_out s) s e,
    )

touch-count :
    (d : Database) (now : ℕ) (id hash : Str) (delta_in delta_out : ℕ) (h : Str)
    → session_count (touch_session d now id hash delta_in delta_out).0 h ≡ session_count d h
unfolding touch_session add_traffic session_count
touch-count d now id hash delta_in delta_out h =
    let d' = touch_row d now id delta_in delta_out in
    if-cases (λ (p : Database × Option StoreError). session_count p.0 h ≡ session_count d h)
      (delta_in == 0 && delta_out == 0) _ _ (λ z. touch_row-count d now id delta_in delta_out h)
      (λ nz.
        if-cases (λ r. session_count (after_traffic d' r).0 h ≡ session_count d h)
          (has_token d' hash) _ _ (λ k. touch_row-count d now id delta_in delta_out h)
          (λ k. touch_row-count d now id delta_in delta_out h))

counted_more :
    (limit : Str → ℕ) (more : ℕ) (d : Database) (p : Pending) (hash h : Str)
    → h ≡ hash
    → has_room d hash (limit hash) ≡ true
    → p hash < more + 1
    → same_text h hash ≡ true
    → 0 < limit h
    → session_count d h + one_more p hash h ≤ limit h + more
unfolding has_room
counted_more limit more d p hash h e room few same pos =
    let room' = subst (λ (k : Str). has_room d k (limit k) ≡ true) (sym e) room in
    let few' = subst (λ (k : Str). p k < more + 1) (sym e) few in ground arith

Step-IsBounded :
    (limit : Str → ℕ) (more : ℕ) (d d' : Database) (p p' : Pending)
    → Step limit (more + 1) d p d' p'
    → IsBounded limit more d p
    → IsBounded limit more d' p'
unfolding session_count close_session sweep_sessions has_room
Step-IsBounded limit more d d' p p' (Step.counts hash room few) v = λ h pos.
    elim (Bool-cases (same_text h hash)) [
      | inl same ↦ counted_more limit more d p hash h (same_text-eq h hash same) room few same pos
      | inr other ↦ ground (arith, v h pos)
    ]
Step-IsBounded limit more d d' p p' (Step.inserts now id s e) v = λ h pos.
    let c = subst (CountsOne d h s.token_hash) e (insert_session-count d now id s h) in
    ground (arith, v h pos, c)
Step-IsBounded limit more d d' p p' (Step.drops hash) v = λ h pos. ground (arith, v h pos)
Step-IsBounded limit more d d' p p' (Step.touches now id hash i o) v =
    λ h pos. rw (touch-count d now id hash i o h) (v h pos)
Step-IsBounded limit more d d' p p' (Step.closes id) v = λ h pos.
    omega (arith, v h pos, count_rows-delete_row Str-discrete (is_session_of h) d.sessions id)
Step-IsBounded limit more d d' p p' (Step.sweeps now older_than) v = λ h pos. omega (
  arith,
  v h pos,
  count_rows-keep_rows (is_session_of h) (is_recent (now - older_than)) d.sessions,
)

Steps-kept :
    (limit : Str → ℕ) (more : ℕ) (d d' : Database) (p p' : Pending)
    → Steps limit (more + 1) d p d' p'
    → IsBounded limit more d p
    → IsBounded limit more d' p'
Steps-kept limit more d d' p p' Steps.halt v = v
Steps-kept limit more d d' p p' (Steps.steps {e = e} {q = q} s ss) v =
    Steps-kept limit more e d' q p' ss (Step-IsBounded limit more d e p q s v)

-- Along any openings under the clients' limits, traffic, closings and sweeps, where the openings of a
-- client may overlap, at most `more + 1` of them at once: no client with a limit ever has more than
-- `more` sessions beyond it, once none has more than its limit. So none passes its limit where the
-- openings of a client come one after the other, with `more` = 0.
pub Steps-IsBounded :
    (limit : Str → ℕ) (more : ℕ) (d d' : Database) (p : Pending)
    → Steps limit (more + 1) d none_pending d' p
    → ((hash : Str) → 0 < limit hash → session_count d hash ≤ limit hash)
    → (hash : Str) → 0 < limit hash
    → session_count d' hash ≤ limit hash + more
Steps-IsBounded limit more d d' p s v hash pos =
    let w = Steps-kept limit more d d' none_pending p s (λ h q. omega (arith, v h q)) hash pos in
    omega (arith, w)
