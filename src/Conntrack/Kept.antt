-- ===== src/Conntrack/Kept.antt =====
-- The label of a flow whose entry is fresh.
use quic_diver.Base.{
  ℕ, ◌+◌, ◌≤◌, ◌<◌, ◌≡◌, refl, sym, ap, ◌∙◌, true, false, Option, none, some, ltb, leb, [], ◌∷◌,
  All, Str, arith, if-cases, ltb→le, ltb→lt, length, subst,
}
use quic_diver.Rules.{Flow}
use quic_diver.Conntrack.{
  FlowKey, FlowKey-discrete, CtEntry, Entries, find, store, Conntrack, flow_key, decide_found,
  decide_flow, sweep_entries, sweep, len,
}

find-store : (m : Entries) (k : FlowKey) (e : CtEntry) → find (store m k e) k ≡ some e
unfolding find store FlowKey-discrete
find-store [] k e = ground arith
find-store ((j, d) ∷ m) k e = ground (arith, find-store m k e)

find-store_other :
    (m : Entries) (k l : FlowKey) (e : CtEntry) → ¬ (k ≡ l) → find (store m k e) l ≡ find m l
unfolding find store FlowKey-discrete
find-store_other [] k l e h = ground arith
find-store_other ((j, d) ∷ m) k l e h = ground (arith, find-store_other m k l e h)

-- The flow has the label at this moment.
abbrev pub IsKept : Conntrack → ℕ → FlowKey → Str → Type 0
IsKept c now k out = (e : CtEntry) × (find c.m k ≡ some e) × (e.out ≡ out) × (now < e.seen + c.ttl)

abbrev stored : Conntrack → ℕ → FlowKey → Str → Conntrack
stored c now k out = record c { m = store c.m k (record { out = out; seen = now }) }

-- What deciding about the flow with the key `k` does to the labels of all flows.
abbrev pub Settles : Conntrack → ℕ → FlowKey → Str → Conntrack × Str → Type 0
Settles c now k classified (d, out) =
    IsKept d now k out
    × ((l : FlowKey) (o : Str) → IsKept c now l o → IsKept d now l o)
    × ((o : Str) → IsKept c now k o → out ≡ o)
    × (((o : Str) → ¬ IsKept c now k o) → out ≡ classified)

stored-keeps :
    (c : Conntrack) (now : ℕ) (k : FlowKey) (out : Str)
    → 0 < c.ttl
    → ((o : Str) → IsKept c now k o → out ≡ o)
    → (l : FlowKey) (o : Str) → IsKept c now l o
    → IsKept (stored c now k out) now l o
stored-keeps c now k out pos same l o h = elim (FlowKey-discrete k l) [
  | yes p ↦
      subst (λ x. IsKept (stored c now k out) now x o) p
        (
          record { out = out; seen = now },
          find-store c.m k (record { out = out; seen = now }),
          same o (subst (λ x. IsKept c now x o) (sym p) h),
          omega arith,
        )
  | no n ↦
      let (e, at, is, fresh) = h in
      (e, find-store_other c.m k l (record { out = out; seen = now }) n ∙ at, is, fresh)
]

stored-Settles :
    (c : Conntrack) (now : ℕ) (k : FlowKey) (out classified : Str)
    → 0 < c.ttl
    → ((o : Str) → IsKept c now k o → out ≡ o)
    → (((o : Str) → ¬ IsKept c now k o) → out ≡ classified)
    → Settles c now k classified (stored c now k out, out)
stored-Settles c now k out classified pos same new = (
  (
    record { out = out; seen = now },
    find-store c.m k (record { out = out; seen = now }),
    refl,
    omega arith,
  ),
  stored-keeps c now k out pos same,
  same,
  new,
)

some_inj : (d e : CtEntry) → some d ≡ some e → d ≡ e
some_inj d e h = ground (arith, h)

decide_found-Settles :
    (c : Conntrack) (now : ℕ) (k : FlowKey) (classified : Str) (found : Option CtEntry)
    → 0 < c.ttl
    → find c.m k ≡ found
    → Settles c now k classified (decide_found c now k classified found)
unfolding decide_found
decide_found-Settles c now k classified none pos at =
    stored-Settles c now k classified classified pos
      (λ o (e, is, out, fresh). ground (arith, at, is)) (λ h. refl)
decide_found-Settles c now k classified (some e) pos at =
    if-cases (Settles c now k classified) (ltb now (e.seen + c.ttl)) _ _
      (λ l.
        stored-Settles c now k e.out classified pos
          (λ o (d, is, out, fresh). ap CtEntry.out (some_inj e d (sym at ∙ is)) ∙ out)
          (λ h. absurd (h e.out (e, at, refl, ltb→lt now (e.seen + c.ttl) l))))
      (λ l.
        stored-Settles c now k classified classified pos
          (λ o (d, is, out, fresh).
            let same = ap CtEntry.seen (some_inj e d (sym at ∙ is)) in
            absurd (omega (arith, fresh, same, ltb→le now (e.seen + c.ttl) l)))
          (λ h. refl))

-- `Decide` answers with the label that the flow has, and only where it has none with the label of
-- its classifier; then the flow has the label of the answer, and every other flow still has its own.
pub decide_flow-Settles :
    (c : Conntrack) (now src_port : ℕ) (f : Flow) (classify : Flow → Str)
    → 0 < c.ttl
    → Settles c now (flow_key src_port f) (classify f) (decide_flow c now src_port f classify)
unfolding decide_flow
decide_flow-Settles c now src_port f classify pos =
    decide_found-Settles c now (flow_key src_port f) (classify f) (find c.m (flow_key src_port f))
      pos refl

abbrev pub IsFresh : ℕ → ℕ → FlowKey × CtEntry → Type 0
IsFresh ttl now (k, e) = now < e.seen + ttl

-- What a sweep leaves of the entries `m`.
abbrev pub Sweeps : ℕ → ℕ → Entries → Entries × ℕ → Type 0
Sweeps ttl now m (rest, n) =
    All (IsFresh ttl now) rest
    × (length rest + n ≡ length m)
    × ((k : FlowKey) (e : CtEntry) → find m k ≡ some e → now < e.seen + ttl → find rest k ≡ some e)

find_here : (j k : FlowKey) (d : CtEntry) (m : Entries) → j ≡ k → find ((j, d) ∷ m) k ≡ some d
unfolding find FlowKey-discrete
find_here j k d m h = ground arith

find_past : (j k : FlowKey) (d : CtEntry) (m : Entries) → ¬ (j ≡ k) → find ((j, d) ∷ m) k ≡ find m k
unfolding find FlowKey-discrete
find_past j k d m h = ground arith

leb→le : (a b : ℕ) → leb a b ≡ true → a ≤ b
leb→le a b h = ground arith

leb→lt : (a b : ℕ) → leb a b ≡ false → b < a
leb→lt a b h = ground arith

Sweeps-drop :
    (ttl now : ℕ) (j : FlowKey) (d : CtEntry) (m rest : Entries) (n : ℕ)
    → d.seen + ttl ≤ now
    → Sweeps ttl now m (rest, n)
    → Sweeps ttl now ((j, d) ∷ m) (rest, n + 1)
Sweeps-drop ttl now j d m rest n old (fresh, total, kept) = (
  fresh,
  omega (arith, total),
  λ k e h new. elim (FlowKey-discrete j k) [
    | yes p ↦
        let same = ap CtEntry.seen (some_inj d e (sym (find_here j k d m p) ∙ h)) in
        absurd (omega (arith, old, new, same))
    | no p ↦ kept k e (sym (find_past j k d m p) ∙ h) new
  ],
)

Sweeps-keep :
    (ttl now : ℕ) (j : FlowKey) (d : CtEntry) (m rest : Entries) (n : ℕ)
    → now < d.seen + ttl
    → Sweeps ttl now m (rest, n)
    → Sweeps ttl now ((j, d) ∷ m) ((j, d) ∷ rest, n)
Sweeps-keep ttl now j d m rest n live (fresh, total, kept) = (
  (live, fresh),
  omega (arith, total),
  λ k e h new. elim (FlowKey-discrete j k) [
    | yes p ↦ find_here j k d rest p ∙ (sym (find_here j k d m p) ∙ h)
    | no p ↦ find_past j k d rest p ∙ kept k e (sym (find_past j k d m p) ∙ h) new
  ],
)

sweep_entries-Sweeps : (ttl now : ℕ) (m : Entries) → Sweeps ttl now m (sweep_entries ttl now m)
unfolding sweep_entries find
sweep_entries-Sweeps ttl now [] = (tt, refl, λ k e h fresh. h)
sweep_entries-Sweeps ttl now ((j, d) ∷ m) =
    let (rest, n) = sweep_entries ttl now m in
    let swept = sweep_entries-Sweeps ttl now m in
    if-cases (Sweeps ttl now ((j, d) ∷ m)) (leb (d.seen + ttl) now) _ _
      (λ old. Sweeps-drop ttl now j d m rest n (leb→le (d.seen + ttl) now old) swept)
      (λ live. Sweeps-keep ttl now j d m rest n (leb→lt (d.seen + ttl) now live) swept)

-- `Sweep` leaves no stale entry, counts the entries that it takes away, and every flow that has a
-- label keeps it.
pub sweep_lem :
    (c : Conntrack) (now : ℕ)
    → All (IsFresh c.ttl now) (sweep c now).0.m
      × (len (sweep c now).0 + (sweep c now).1 ≡ len c)
      × ((k : FlowKey) (out : Str) → IsKept c now k out → IsKept (sweep c now).0 now k out)
unfolding sweep len
sweep_lem c now =
    let (fresh, total, kept) = sweep_entries-Sweeps c.ttl now c.m in
    (fresh, total, λ k out (e, at, is, live). (e, kept k e at live, is, live))
