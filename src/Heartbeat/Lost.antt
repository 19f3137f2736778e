-- ===== src/Heartbeat/Lost.antt =====
-- A beat that does not get through.
use quic_diver.Base.{
  ℕ, arith, ◌≡◌, refl, ap, ◌∙◌, true, if-cases, ltb, ◌||◌, none, some, All, List, [], ◌∷◌, Map,
  Rows, IsTable, Str, Str-discrete,
}
use quic_diver.Store.{Traffic, Database, same_text_refl}
use quic_diver.Store.Reports.{NodeTraffic, local_traffic_report, report_of}
use quic_diver.Store.Reports.Again.{reported}
use quic_diver.Heartbeat.{
  Beater, bytes_of, is_sent, sent_after, report_changed, report, beat_linked,
}
use quic_diver.Heartbeat.Changed.{newest, sent_after-row, report_changed-sent, local_none}

-- Every row counts as sent.
abbrev IsSent : Map Str (ℕ × ℕ) → List NodeTraffic → Type 0
IsSent sent rs = All (λ r. sent r.token_hash ≡ some (bytes_of r)) rs

-- No client has two rows.
abbrev IsUnique : List NodeTraffic → Type 0
IsUnique [] = Unit
IsUnique (r ∷ rs) = (reported rs r.token_hash ≡ none) × IsUnique rs

report_of-IsUnique : (t : Rows Str Traffic) → IsTable Str-discrete t → IsUnique (report_of t)
unfolding report_of
report_of-IsUnique [] u = tt
report_of-IsUnique ((k, v) ∷ t) (absent, u) =
    if-cases IsUnique (ltb 0 v.bytes_in || ltb 0 v.bytes_out) _ _
      (λ h. (local_none t k absent, report_of-IsUnique t u)) (λ h. report_of-IsUnique t u)

report_changed-IsSent :
    (sent : Map Str (ℕ × ℕ)) (rs : List NodeTraffic)
    → IsUnique rs
    → IsSent (report_changed sent rs).1 rs
unfolding report_changed
report_changed-IsSent sent [] u = tt
report_changed-IsSent sent (r ∷ rs) (absent, u) = (
  report_changed-sent (sent_after sent r) rs r.token_hash
      ∙ ap (λ q. newest q (sent_after sent r r.token_hash)) absent
      ∙ sent_after-row sent r r.token_hash
      ∙ ground (arith, same_text_refl r.token_hash),
  report_changed-IsSent (sent_after sent r) rs u,
)

is_sent_refl : (r : NodeTraffic) → is_sent (some (bytes_of r)) (bytes_of r) ≡ true
is_sent_refl r = ground arith

IsSent-none :
    (sent : Map Str (ℕ × ℕ)) (rs : List NodeTraffic)
    → IsSent sent rs
    → (report_changed sent rs).0 ≡ []
unfolding report_changed
IsSent-none sent [] h = refl
IsSent-none sent (r ∷ rs) (h, hs) = rw h (rw (is_sent_refl r) (IsSent-none sent rs hs))

-- A beat whose request fails leaves the own database as it is, and yet its counters count as sent: the
-- next report of the same counters is empty, so that the master does not learn of them.
pub beat_linked-lost :
    (d : Database) (now : ℕ) (b : Beater)
    → IsTable Str-discrete d.traffic
    → (let r = beat_linked (λ rows. none) d now b in
        (r.failed ≡ true) × (r.store ≡ d) × ((report r.beater r.store).0 ≡ []))
unfolding beat_linked report local_traffic_report
beat_linked-lost d now b u = (
  refl,
  refl,
  IsSent-none (report_changed b.sent (report_of d.traffic)).1 (report_of d.traffic)
      (report_changed-IsSent b.sent (report_of d.traffic) (report_of-IsUnique d.traffic u)),
)
