-- ===== src/Notify/Order.antt =====
-- The numbers of the notifications, and how many are kept.
use quic_diver.Base.{
  ℕ, zero, suc, ◌+◌, ◌≤◌, ◌<◌, ◌≡◌, refl, ap, inl, inr, Option, none, some, ltb, List, [], ◌∷◌, In,
  Str, arith, if-cases, length, take, length-take,
}
use quic_diver.Notify.{
  Level, Event, Center, max_kept, dedupe_window, is_same, refresh_event, new_event, post_found,
  post,
}

-- The numbers fall from `n` on, and none is 0.
abbrev pub Descends : ℕ → List Event → Type 0
Descends n [] = Unit
Descends n (e ∷ es) = (e.id < n) × (0 < e.id) × Descends e.id es

pub record IsValid (c : Center) : Type 0 where
  pub order : Descends c.next_id c.events
  pub bound : length c.events ≤ max_kept
  pub start : 0 < c.next_id

Descends-take : (n k : ℕ) (es : List Event) → Descends n es → Descends n (take k es)
Descends-take n zero es h = tt
Descends-take n (suc k) [] h = tt
Descends-take n (suc k) (e ∷ es) (a, b, h) = (a, b, Descends-take e.id k es h)

-- What the loop leaves of the list: the same numbers in the same order.
abbrev pub Refreshes : ℕ → List Event → Option (List Event × Event) → Type 0
Refreshes n es none = Unit
Refreshes n es (some (fs, dup)) =
    ((k : ℕ) → Descends k es → Descends k fs) × (length fs ≡ length es) × In dup fs × (dup.at ≡ n)

Refreshes-cons :
    (n : ℕ) (e : Event) (es : List Event) (r : Option (List Event × Event))
    → Refreshes n es r
    → Refreshes n (e ∷ es) (elim r [ none ↦ none | some (fs, dup) ↦ some (e ∷ fs, dup) ])
Refreshes-cons n e es none h = tt
Refreshes-cons n e es (some (fs, dup)) (d, l, i, a) =
    (λ k (x, y, z). (x, y, d e.id z), ap suc l, inr i, a)

refresh_event-Refreshes :
    (now : ℕ) (level : Level) (title text : Str) (es : List Event)
    → Refreshes now es (refresh_event now level title text es)
unfolding refresh_event
refresh_event-Refreshes now level title text [] = tt
refresh_event-Refreshes now level title text (e ∷ es) =
    if-cases (Refreshes now (e ∷ es)) (is_same level title text e) _ _
      (λ s.
        if-cases (Refreshes now (e ∷ es)) (ltb now (e.at + dedupe_window)) _ none
          (λ l. (λ k d. d, refl, inl refl, refl)) (λ l. tt))
      (λ s.
        Refreshes-cons now e es (refresh_event now level title text es)
          (refresh_event-Refreshes now level title text es))

post_found-IsValid :
    (c : Center) (now : ℕ) (level : Level) (title text : Str) (r : Option (List Event × Event))
    → IsValid c
    → Refreshes now c.events r
    → IsValid (post_found c (new_event c now level title text) r).0
unfolding post_found
post_found-IsValid c now level title text none h f = record {
  order =
      Descends-take (c.next_id + 1) max_kept (new_event c now level title text ∷ c.events)
        (omega arith, h.start, h.order);
  bound = omega (arith, length-take max_kept (new_event c now level title text ∷ c.events));
  start = omega arith;
}
post_found-IsValid c now level title text (some (es, dup)) h (d, l, i, a) = record {
  order = d c.next_id h.order;
  bound = omega (arith, l, h.bound);
  start = h.start;
}

-- `Post` keeps at most `max_kept` notifications, with numbers that are different, not 0, below the
-- next number, and fall from the newest to the oldest.
pub post-IsValid :
    (c : Center) (now : ℕ) (level : Level) (title text : Str)
    → IsValid c
    → IsValid (post c now level title text).0
unfolding post
post-IsValid c now level title text h =
    post_found-IsValid c now level title text (refresh_event now level title text c.events) h
      (refresh_event-Refreshes now level title text c.events)
