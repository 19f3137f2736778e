-- ===== src/Links/Tests.antt =====
-- A node `me` with a neighbour `a` that moves, and the theorems about its links.
use quic_diver.Base.{
  ℕ, ◌+◌, ◌*◌, ◌^◌, ◌≤◌, ◌<◌, ◌≡◌, ◌≢◌, refl, true, none, some, [], ◌∷◌, Rows, row_of, Str,
  Str-discrete, bytes, Option, arith,
}
use quic_diver.Store.{Node, same_text}
use quic_diver.Links.{
  Conn, NodeLinks, new_node_links, reload, start_dial, end_dial, dialer, linked, dials, close_links,
  pick_by_category, link_retry_after,
}
use quic_diver.Links.Kept.{Steps, reloads, connects, ends, Conserves, occurs, Steps-Conserves}
use quic_diver.Links.Follows.{Calls, dials_node, Points, Follows, ConnPoints, Calls-Follows}
use quic_diver.Links.Lingers.{reload_all, start_dial-lingers}
use quic_diver.Links.Retry.{IsUnlinked, after_failure, after_answer, dialer_retries}

program : Unit {0}
unfolding reload start_dial end_dial dialer pick_by_category close_links same_text
program = tt

abbrev me : Str
me = bytes "m"

abbrev a : Str
a = bytes "a"

abbrev node_at : Str → Node
node_at addr = record {
  label = [];
  category = bytes "exit";
  tags = bytes "de" ∷ [];
  addr = addr;
  sni = [];
  token_hash = bytes "h";
  enabled = true;
  last_seen = 0;
  updated_at = 0;
}

abbrev old_place : Node
old_place = node_at (bytes "1")

abbrev new_place : Node
new_place = node_at (bytes "2")

abbrev registry : Node → Rows Str Node
registry n = (a, n) ∷ (me, node_at (bytes "0")) ∷ []

abbrev ready : NodeLinks
ready = reload (new_node_links me) (some (registry old_place))

abbrev first : Conn
first = record { number = 1; to = old_place }

abbrev second : Conn
second = record { number = 2; to = old_place }

-- Two dials at once: the later connection is not needed.
abbrev both : NodeLinks
both = (end_dial (end_dial ready 5 a (some first)).0 6 a (some second)).0

both-Steps : Steps (new_node_links me) [] both (second ∷ first ∷ [])
both-Steps = reloads (some (registry old_place)) (connects 5 a first (connects 6 a second ends))

closed_second : both.closed ≡ second ∷ []
unfolding program
closed_second = refl

Steps-Conserves_example :
    Conserves both (second ∷ first ∷ [])
    × ((k : ℕ) → occurs k (close_links both).closed ≡ occurs k (second ∷ first ∷ []))
Steps-Conserves_example = Steps-Conserves me both (second ∷ first ∷ []) both-Steps

abbrev answers : Node → Option ℕ
answers n = some 1

abbrev moved : NodeLinks
moved = reload (dialer ready 5 a answers).0 (some (registry new_place))

-- The link to the old place is closed, and the next one leads to the new place.
redialed : (dialer moved 9 a answers).1 ≡ some (record { number = 1; to = new_place })
unfolding program
redialed = refl

Calls-Follows_example :
    Follows moved
    × ((now : ℕ) (id : Str) (dial : Node → Option ℕ)
        → ConnPoints (row_of Str-discrete moved.nodes id) (dialer moved now id dial).1)
Calls-Follows_example = Calls-Follows me moved (
    Calls.reloads (some (registry old_place))
      (dials_node 5 a answers (Calls.reloads (some (registry new_place)) Calls.ends)))

ready_dials : start_dial ready 5 a ≡ dials old_place
unfolding program
ready_dials = refl

other_place : old_place.addr ≢ new_place.addr
other_place e = ground arith

stands : Points (row_of Str-discrete (registry new_place) a) new_place
unfolding program
stands = (refl, refl, refl)

start_dial-lingers_example :
    (let m =
        reload_all
          (end_dial (reload ready (some (registry new_place))) 9 a (some first)).0
          (registry new_place ∷ []) in
      (start_dial m 9 a ≡ linked first) × ¬ Points (row_of Str-discrete m.nodes a) old_place)
unfolding program
start_dial-lingers_example =
    start_dial-lingers ready 5 9 a old_place new_place 1 (registry new_place)
      (registry new_place ∷ []) ready_dials other_place (stands, (stands, tt))

unlinked : IsUnlinked ready a old_place
unfolding program
unlinked = (refl, refl, refl, refl)

dialer_retries_example :
    (let l' = after_failure ready 5 a in
      (20 * 10 ^ 9 < 5 + link_retry_after → dialer l' (20 * 10 ^ 9) a answers ≡ (l', none))
      × (5 + link_retry_after ≤ 20 * 10 ^ 9
          → answers old_place ≡ some 1
          → (dialer l' (20 * 10 ^ 9) a answers
              ≡ (after_answer l' (20 * 10 ^ 9) a first, some first))
            × ((later : ℕ) (dial' : Node → Option ℕ)
                → dialer (after_answer l' (20 * 10 ^ 9) a first) later a dial'
                  ≡ (after_answer l' (20 * 10 ^ 9) a first, some first))))
dialer_retries_example = dialer_retries ready 5 (20 * 10 ^ 9) 1 a old_place answers unlinked
