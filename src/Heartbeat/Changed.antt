-- ===== src/Heartbeat/Changed.antt =====
-- What a report holds, and what counts as sent behind it.
use quic_diver.Base.{
  ℕ, arith, ◌≡◌, refl, sym, ap, ◌∙◌, true, if◌then◌else◌, Bool-cases, inl, inr, if_pos, if_neg, ltb,
  ◌||◌, Option, none, some, List, [], ◌∷◌, Map, Rows, IsTable, row_of, Str, Str-discrete,
}
use quic_diver.Store.{Traffic, same_text, same_text-ne, same_text_refl}
use quic_diver.Store.Reports.{NodeTraffic, report_of}
use quic_diver.Store.Reports.Again.{reported}
use quic_diver.Heartbeat.{is_sent, bytes_of, sent_after, report_changed}

-- The bytes of the last entry for a client, or what there was before.
abbrev pub newest : Option NodeTraffic → Option (ℕ × ℕ) → Option (ℕ × ℕ)
newest none old = old
newest (some r) old = some (bytes_of r)

is_sent_eq : (o : Option (ℕ × ℕ)) (p : ℕ × ℕ) → is_sent o p ≡ true → o ≡ some p
is_sent_eq none p h = cc
is_sent_eq (some (i, o)) (j, p) h = ground arith

-- One row: what counts as sent of a client behind it.
pub sent_after-row :
    (sent : Map Str (ℕ × ℕ)) (r : NodeTraffic) (h : Str)
    → sent_after sent r h ≡ (if same_text r.token_hash h then some (bytes_of r) else sent h)
sent_after-row sent r h = elim (Str-discrete r.token_hash h) [
  | yes e ↦
      let t = ap (λ (z : Str). same_text z h) e ∙ same_text_refl h in
      elim (Bool-cases (is_sent (sent r.token_hash) (bytes_of r))) [
        | inl s ↦ rw (s, t) (ap sent (sym e) ∙ is_sent_eq (sent r.token_hash) (bytes_of r) s)
        | inr s ↦ rw (s, t) (if_pos (Str-discrete h r.token_hash) (sym e) _ _)
      ]
  | no q ↦
      let t = same_text-ne r.token_hash h q in
      elim (Bool-cases (is_sent (sent r.token_hash) (bytes_of r))) [
        | inl s ↦ rw (s, t)
        | inr s ↦ rw (s, t) (if_neg (Str-discrete h r.token_hash) (λ e. q (sym e)) _ _)
      ]
]

-- All that the node counts counts as sent.
pub report_changed-sent :
    (sent : Map Str (ℕ × ℕ)) (rs : List NodeTraffic) (h : Str)
    → (report_changed sent rs).1 h ≡ newest (reported rs h) (sent h)
unfolding report_changed reported
report_changed-sent sent [] h = refl
report_changed-sent sent (r ∷ rs) h =
    report_changed-sent (sent_after sent r) rs h ∙ ground (arith, sent_after-row sent r h)

-- What goes out brings the counters of before to those of now.
pub report_changed-rows :
    (sent : Map Str (ℕ × ℕ)) (rs : List NodeTraffic) (h : Str)
    → newest (reported (report_changed sent rs).0 h) (sent h) ≡ (report_changed sent rs).1 h
unfolding report_changed reported
report_changed-rows sent [] h = refl
report_changed-rows sent (r ∷ rs) h =
    let (kept, sent') = report_changed (sent_after sent r) rs in
    let ih : newest (reported kept h) (sent_after sent r h) ≡ sent' h =
      report_changed-rows (sent_after sent r) rs h in
    elim (Bool-cases (is_sent (sent r.token_hash) (bytes_of r))) [
      | inl s ↦ ground (arith, s, ih)
      | inr s ↦ ground (arith, s, ih, sent_after-row sent r h)
    ]

pub local_none :
    (t : Rows Str Traffic) (hash : Str)
    → row_of Str-discrete t hash ≡ none
    → reported (report_of t) hash ≡ none
unfolding report_of reported
local_none [] hash e = refl
local_none ((k, w) ∷ t) hash e = elim (Str-discrete hash k) [
  | yes q ↦ ground arith
  | no q ↦ ground (arith, local_none t hash, same_text-ne k hash (λ z. q (sym z)))
]

-- The entry of a client in the own report, where its counters are not both zero.
pub local_row :
    (t : Rows Str Traffic) (hash : Str) (v : Traffic)
    → IsTable Str-discrete t
    → row_of Str-discrete t hash ≡ some v
    → ltb 0 v.bytes_in || ltb 0 v.bytes_out ≡ true
    → reported (report_of t) hash
      ≡ some (record { token_hash = hash; bytes_in = v.bytes_in; bytes_out = v.bytes_out })
unfolding report_of reported
local_row [] hash v u e p = ground arith
local_row ((k, w) ∷ t) hash v (absent, u) e p = elim (Str-discrete hash k) [
  | yes q ↦
      let same = ap (λ (z : Str). same_text z hash) (sym q) ∙ same_text_refl hash in
      ground (arith, same, local_none t hash)
  | no q ↦ ground (arith, local_row t hash v u, same_text-ne k hash (λ z. q (sym z)))
]
