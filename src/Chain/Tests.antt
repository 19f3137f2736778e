-- ===== src/Chain/Tests.antt =====
-- Flows through a ring of nodes where every node names the next one, and the theorems there.
use quic_diver.Base.{
  ◌-◌, ◌≤◌, ◌≡◌, refl, true, false, some, arith, Str, Str-discrete, bytes, trim_space, ite,
}
use quic_diver.Label.{transit, decide, ok, parse, to_string, auto_route}
use quic_diver.Label.Parse.{parse-to_string}
use quic_diver.Chain.{
  Config, Request, missing, hops, bad_gateway, label_route, serve_connect, travel,
}
use quic_diver.Chain.Bounds.{budget, Ends, serve_connect-forwards, travel-Ends}

program : Unit {0}
unfolding serve_connect travel parse trim_space Str-discrete decide
program = tt

-- Two nodes; each picks the other for the category `de`.
abbrev node_a : Config
node_a = record { node_id = bytes "a"; pick_node = some (λ tag. bytes "b"); has_link = λ n. true }

abbrev node_b : Config
node_b = record { node_id = bytes "b"; pick_node = some (λ tag. bytes "a"); has_link = λ n. true }

abbrev nodes : Str → Config
nodes n = ite (Str-discrete n (bytes "a")) node_a node_b

abbrev request : Request
request = record { hop_header = missing; label = bytes "auto:de" }

abbrev lonely : Config
lonely = record node_a { has_link = λ n. false }

-- The loop is broken by the dialer of the eighth node: seven transits.
loop_ends : travel 9 nodes (bytes "a") request ≡ some (7, bad_gateway)
unfolding program
loop_ends = refl

serve_connect-forwards_example :
    (hops 7 ≡ hops (budget missing - 1))
    × (2 ≤ budget missing)
    × (bytes "auto:de" ≡ bytes "auto:de")
    × (decide (label_route (bytes "auto:de")) (bytes "a") (some (λ tag. bytes "b"))
        ≡ transit (bytes "b"))
    × (true ≡ true)
unfolding program
serve_connect-forwards_example =
    serve_connect-forwards node_a request (bytes "b")
      (record { hop_header = hops 7; label = bytes "auto:de" }) refl

travel-Ends_example : Ends 7 (travel 9 nodes (bytes "a") request)
travel-Ends_example = travel-Ends 9 nodes (bytes "a") request (omega arith)

parse-to_string_example : parse (to_string (auto_route (bytes "de"))) ≡ ok (auto_route (bytes "de"))
unfolding program
parse-to_string_example = parse-to_string (bytes " auto: de ") (auto_route (bytes "de")) refl
