-- ===== src/Conntrack/Tests.antt =====
-- A flow whose rule changes while it lives.
use quic_diver.Base.{◌≡◌, refl, [], bytes, v4, arith}
use quic_diver.Rules.{Flow}
use quic_diver.Conntrack.{Conntrack, new_conntrack, flow_key, decide_flow, sweep, len}
use quic_diver.Conntrack.Kept.{Settles, decide_flow-Settles}

program : Unit {0}
unfolding decide_flow new_conntrack sweep len
program = tt

abbrev flow : Flow
flow = record { dst = record { addr = v4 8; port = 443 }; domain = []; process = [] }

abbrev table : Conntrack
table = record { ttl = 100; m = [] }

abbrev decided : Conntrack
decided = (decide_flow table 10 5000 flow (λ f. bytes "node:de")).0

kept : (decide_flow decided 50 5000 flow (λ f. bytes "direct")).1 ≡ bytes "node:de"
unfolding program
kept = refl

expired : (decide_flow decided 110 5000 flow (λ f. bytes "direct")).1 ≡ bytes "direct"
unfolding program
expired = refl

decide_flow-Settles_example :
    Settles decided 50
      (flow_key 5000 flow)
      (bytes "direct")
      (decide_flow decided 50 5000 flow (λ f. bytes "direct"))
unfolding program
decide_flow-Settles_example =
    decide_flow-Settles decided 50 5000 flow (λ f. bytes "direct") (omega arith)
