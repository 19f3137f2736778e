-- ===== src/Exits/Tests.antt =====
-- A registry of three nodes, and the list that the client gets.
use quic_diver.Base.{
  Str-discrete, ℕ, ◌≡◌, refl, Bool, true, false, ◌++◌, List, [], ◌∷◌, In, Rows, Str, bytes, map,
}
use quic_diver.Store.{Node, same_text}
use quic_diver.Balancer.{is_blank}
use quic_diver.Exits.{ExitView, is_alive, exits_of}
use quic_diver.Exits.Offered.{IsOffered, StandsFor, exits_of-IsOffered}

program : Unit {0}
unfolding exits_of same_text
program = tt

abbrev me : Str
me = bytes "m"

abbrev seen_at : List Str → ℕ → Bool → Node
seen_at tags t on = record {
  label = [];
  category = bytes "exit";
  tags = tags;
  addr = [];
  sni = [];
  token_hash = [];
  enabled = on;
  last_seen = t;
  updated_at = 0;
}

abbrev german : Str
german = bytes "de"

-- `a` is alive, `b` has been silent for too long, and `c` is out of use.
abbrev registry : Rows Str Node
registry =
    (bytes "a", seen_at (german ∷ []) 900000000000 true)
    ∷ (bytes "b", seen_at (bytes "fr" ∷ []) 1 true)
    ∷ (bytes "c", seen_at (bytes "nl" ∷ []) 900000000000 false)
    ∷ []

abbrev time : ℕ
time = 1000000000000

routes :
    map {B = Str × Bool} (λ (v : ExitView). (v.route, v.alive)) (exits_of me time registry)
    ≡ (bytes "direct", true)
      ∷ (bytes "a", true)
      ∷ (bytes "b", false)
      ∷ (bytes "auto:de", true)
      ∷ (bytes "auto:exit", true)
      ∷ (bytes "auto:fr", false)
      ∷ []
unfolding program
routes = refl

exits_of-IsOffered_example :
    ((v : ExitView)
      → In v (exits_of me time registry)
      → v.auto ≡ true
      → StandsFor me time registry v)
    × ((id : Str) (n : Node) (tag : Str)
        → In (id, n) registry
        → n.enabled ≡ true
        → is_alive me time id n ≡ true
        → In tag (n.tags ++ n.category ∷ [])
        → is_blank tag ≡ false
        → IsOffered (exits_of me time registry) tag true)
unfolding program Str-discrete
exits_of-IsOffered_example = exits_of-IsOffered me time registry (refl, (refl, (refl, tt)))
