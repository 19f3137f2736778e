-- ===== src/Notify/Posted.antt =====
-- A message that is posted again, and one that is read.
use quic_diver.Base.{
  ℕ, suc, ◌+◌, ◌≤◌, ◌<◌, ◌≡◌, refl, sym, ap, ◌∙◌, inl, inr, Bool, true, false, Option, none, some,
  ltb, List, [], ◌∷◌, In, Str, arith, if-cases, length, take, lt→ltb,
}
use quic_diver.Notify.{
  Level, info, warn, error, Event, Center, dedupe_window, level_eq, text_eq, is_same, refresh_event,
  new_event, post_found, post, unread_events, unread, mark_events, mark_read,
}
use quic_diver.Notify.Order.{Descends, IsValid}

level_eq_refl : (l : Level) → level_eq l l ≡ true
level_eq_refl info = refl
level_eq_refl warn = refl
level_eq_refl error = refl

text_eq_refl : (s : Str) → text_eq s s ≡ true
text_eq_refl [] = refl
text_eq_refl (c ∷ s) = ground (arith, text_eq_refl s)

is_same_new :
    (c : Center) (now : ℕ) (level : Level) (title text : Str)
    → is_same level title text (new_event c now level title text) ≡ true
is_same_new c now level title text =
    rw (level_eq_refl level) (rw (text_eq_refl title) (text_eq_refl text))

-- What posting the message does right behind a post that left the state `d`.
abbrev pub IsRepeated : ℕ → Level → Str → Str → Center × (Event × Bool) → Type 0
IsRepeated later level title text (d, (e, shown)) =
    ((post d later level title text).1 ≡ (record e { at = later }, false))
    × (length (post d later level title text).0.events ≡ length d.events)

module _ (now later : ℕ) (level : Level) (title text : Str)
    (soon : later < now + dedupe_window) where
  -- The search finds the event again, and moves it to `later`.
  abbrev Again : Option (List Event × Event) → Type 0
  Again none = Unit
  Again (some (fs, dup)) =
      (gs : List Event) × (refresh_event later level title text fs
        ≡ some (gs, record dup { at = later }))
      × (length gs ≡ length fs)

  refresh_head :
      (e : Event) (es : List Event)
      → is_same level title text e ≡ true
      → e.at ≡ now
      → refresh_event later level title text (e ∷ es)
        ≡ some (record e { at = later } ∷ es, record e { at = later })
  unfolding refresh_event
  refresh_head e es same at =
      rw same (rw (lt→ltb later (e.at + dedupe_window) (omega (arith, soon, at))) refl)

  refresh_tail :
      (e : Event) (es gs : List Event) (d : Event)
      → is_same level title text e ≡ false
      → refresh_event later level title text es ≡ some (gs, d)
      → refresh_event later level title text (e ∷ es) ≡ some (e ∷ gs, d)
  unfolding refresh_event
  refresh_tail e es gs d other found = rw other (rw found refl)

  Again-cons :
      (e : Event) (r : Option (List Event × Event))
      → is_same level title text e ≡ false
      → Again r
      → Again (elim r [ none ↦ none | some (fs, dup) ↦ some (e ∷ fs, dup) ])
  Again-cons e none other h = tt
  Again-cons e (some (fs, dup)) other (gs, found, l) =
      (e ∷ gs, refresh_tail e fs gs (record dup { at = later }) other found, ap suc l)

  refresh_event-Again : (es : List Event) → Again (refresh_event now level title text es)
  unfolding refresh_event
  refresh_event-Again [] = tt
  refresh_event-Again (e ∷ es) =
      if-cases Again (is_same level title text e) _ _
        (λ s.
          if-cases Again (ltb now (e.at + dedupe_window)) _ none
            (λ l.
              (record e { at = later } ∷ es, refresh_head (record e { at = now }) es s refl, refl))
            (λ l. tt))
        (λ s. Again-cons e (refresh_event now level title text es) s (refresh_event-Again es))

  post_found-IsRepeated :
      (c : Center) (r : Option (List Event × Event))
      → Again r
      → IsRepeated later level title text (post_found c (new_event c now level title text) r)
  unfolding post_found post
  post_found-IsRepeated c none h =
      rw
        (refresh_head (new_event c now level title text) (take 99 c.events)
          (is_same_new c now level title text) refl)
        (refl, refl)
  post_found-IsRepeated c (some (fs, dup)) (gs, found, l) = rw found (refl, l)

-- A message that is posted again inside the window is not shown again and makes no new event: the
-- event of the first time, with its number, only gets the new time.
pub post_again :
    (c : Center) (now later : ℕ) (level : Level) (title text : Str)
    → later < now + dedupe_window
    → IsRepeated later level title text (post c now level title text)
unfolding post
post_again c now later level title text soon =
    post_found-IsRepeated now later level title text soon c
      (refresh_event now level title text c.events)
      (refresh_event-Again now later level title text soon c.events)

mark_past : (id n : ℕ) (es : List Event) → 0 < id → n ≤ id → Descends n es → mark_events id es ≡ es
unfolding mark_events
mark_past id n [] pos h d = refl
mark_past id n (e ∷ es) pos h (a, b, d) = ground (arith, mark_past id e.id es pos (omega arith) d)

below : (n : ℕ) (e : Event) (es : List Event) → Descends n es → In e es → e.id < n
below n e [] d i = elim i [ ]
below n e (x ∷ es) (a, b, d) (inl p) = omega (arith, ap Event.id p, a)
below n e (x ∷ es) (a, b, d) (inr i) = omega (arith, below x.id e es d i, a)

positive : (n : ℕ) (e : Event) (es : List Event) → Descends n es → In e es → 0 < e.id
positive n e [] d i = elim i [ ]
positive n e (x ∷ es) (a, b, d) (inl p) = omega (arith, ap Event.id p, b)
positive n e (x ∷ es) (a, b, d) (inr i) = positive x.id e es d i

mark_one :
    (n : ℕ) (e : Event) (es : List Event)
    → Descends n es
    → In e es
    → e.read ≡ false
    → unread_events (mark_events e.id es) + 1 ≡ unread_events es
unfolding mark_events unread_events
mark_one n e [] d i new = elim i [ ]
mark_one n e (x ∷ es) (a, b, d) (inl p) new =
    let number = ap Event.id p in
    let fresh = sym (ap Event.read p) ∙ new in
    ground (
      arith,
      number,
      fresh,
      mark_past e.id x.id es (omega (arith, b, number)) (omega (arith, number)) d,
    )
mark_one n e (x ∷ es) (a, b, d) (inr i) new =
    ground (arith, mark_one x.id e es d i new, below x.id e es d i, positive x.id e es d i)

-- Marking one unread notification as read takes exactly one from the number of the unread ones.
pub mark_read-unread :
    (c : Center) (e : Event)
    → IsValid c
    → In e c.events
    → e.read ≡ false
    → unread (mark_read c e.id) + 1 ≡ unread c
unfolding mark_read unread
mark_read-unread c e h i new = mark_one c.next_id e c.events h.order i new
