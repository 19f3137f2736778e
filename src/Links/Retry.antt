-- ===== src/Links/Retry.antt =====
-- The pause after a failed dial.
use quic_diver.Base.{
  ℕ, ◌+◌, ◌<◌, ◌≤◌, arith, ◌≡◌, refl, sym, ap, subst, ◌∙◌, ◌||◌, true, false, Option, none, some,
  row_of, if_pos, Str, Str-discrete,
}
use quic_diver.Store.{Node, same_text}
use quic_diver.Links.{
  Conn, Link, NodeLinks, link_retry_after, is_empty, no_way, linked, dials, start_dial, end_dial,
  keep_conn, made_conn, follow_start, dialer,
}
use quic_diver.Links.Follows.{Points}
use quic_diver.Links.Lingers.{start_dial-Stuck, ended-Stuck}

-- A neighbour of the registry that is enabled and has no link.
abbrev pub IsUnlinked : NodeLinks → Str → Node → Type 0
IsUnlinked l id n =
    ((is_empty id || same_text id l.self_id) ≡ false)
    × (row_of Str-discrete l.nodes id ≡ some n)
    × (n.enabled ≡ true)
    × (row_of Str-discrete l.links id ≡ none)

-- The links after a dial of the node has failed.
abbrev pub after_failure : NodeLinks → ℕ → Str → NodeLinks
after_failure l now id = (end_dial l now id none).0

-- The links once it has answered with the connection.
abbrev pub after_answer : NodeLinks → ℕ → Str → Conn → NodeLinks
after_answer l now id c = (end_dial l now id (some c)).0

failed_at : (l : NodeLinks) (t : ℕ) (id : Str) → (after_failure l t id).failed id ≡ some t
unfolding end_dial
failed_at l t id = if_pos (Str-discrete id id) refl _ _

pauses :
    (l : NodeLinks) (t now : ℕ) (id : Str) (n : Node)
    → IsUnlinked l id n
    → now < t + link_retry_after
    → start_dial (after_failure l t id) now id ≡ no_way
unfolding start_dial end_dial
pauses l t now id n (other, node, on, free) h =
    rw (other, node, on, free, failed_at l t id) (ground arith)

tries_again :
    (l : NodeLinks) (t now : ℕ) (id : Str) (n : Node)
    → IsUnlinked l id n
    → t + link_retry_after ≤ now
    → start_dial (after_failure l t id) now id ≡ dials n
unfolding start_dial end_dial
tries_again l t now id n (other, node, on, free) h =
    rw (other, node, on, free, failed_at l t id) (ground arith)

-- A state with the connection given.
abbrev with_conn : Conn → NodeLinks → NodeLinks × Option Conn
with_conn c l = (l, some c)

answered :
    (l : NodeLinks) (now : ℕ) (id : Str) (n : Node) (c : Conn)
    → IsUnlinked l id n
    → end_dial l now id (some c) ≡ (after_answer l now id c, some c)
unfolding end_dial
answered l now id n c (other, node, on, free) =
    ap (λ r. keep_conn l now id c r) free
    ∙ sym (ap (λ (r : Option Link). with_conn c (keep_conn l now id c r).0) free)

links_on :
    (l : NodeLinks) (now later : ℕ) (id : Str) (n : Node) (c : Conn)
    → IsUnlinked l id n
    → start_dial (after_answer l now id c) later id ≡ linked c
links_on l now later id n c (other, node, on, free) =
    start_dial-Stuck (after_answer l now id c) later id n (record { conn = c; born = now })
      (ended-Stuck l now id n c other free (subst (λ r. Points r n) (sym node) (on, refl, refl)))

-- After a dial of a neighbour has failed, `Dialer` leaves it alone until 15 seconds have passed. From
-- then on it is dialed again, and when it answers, its connection is what `Dialer` gives, then and at
-- any later time, with no further dial.
pub dialer_retries :
    (l : NodeLinks) (t now k : ℕ) (id : Str) (n : Node) (dial : Node → Option ℕ)
    → IsUnlinked l id n
    → (let l' = after_failure l t id in
        let c : Conn = record { number = k; to = n } in
        (now < t + link_retry_after → dialer l' now id dial ≡ (l', none))
        × (t + link_retry_after ≤ now
            → dial n ≡ some k
            → (dialer l' now id dial ≡ (after_answer l' now id c, some c))
              × ((later : ℕ) (dial' : Node → Option ℕ)
                  → dialer (after_answer l' now id c) later id dial'
                    ≡ (after_answer l' now id c, some c))))
unfolding dialer end_dial
dialer_retries l t now k id n dial h =
    let l' : NodeLinks = after_failure l t id in
    let c : Conn = record { number = k; to = n } in
    (
      λ early. ap (follow_start l' now id dial) (pauses l t now id n h early),
      λ late yes_. (
        ap (follow_start l' now id dial) (tries_again l t now id n h late)
            ∙ ap (λ o. end_dial l' now id (made_conn n o)) yes_
            ∙ answered l' now id n c h,
        λ later dial'.
            ap (follow_start (after_answer l' now id c) later id dial')
              (links_on l' now later id n c h),
      ),
    )
