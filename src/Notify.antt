-- ===== src/Notify.antt =====
-- internal/client/notify/notify.go: the notifications of the client. The slice `events` is kept with
-- the newest first, the order in which `Post` searches it and `List` returns it. The sinks get an
-- event exactly where the flag that `post` returns says so.
pub mod Order
pub mod Posted
mod Tests
use quic_diver.Base.{
  ℕ, ◌+◌, ◌*◌, ◌^◌, Bool, true, false, ◌&&◌, ◌||◌, Option, none, some, ltb, ◌==◌, if◌then◌else◌,
  List, [], ◌∷◌, Str, take, length,
}

pub data Level : Type 0 where
  info : Level
  warn : Level
  error : Level

pub record Event : Type 0 where
  pub id : ℕ
  pub at : ℕ
  pub level : Level
  pub title : Str
  pub text : Str
  pub read : Bool

abbrev pub max_kept : ℕ
max_kept = 100

abbrev pub dedupe_window : ℕ
dedupe_window = 5 * 60 * 10 ^ 9

pub record Center : Type 0 where
  pub events : List Event
  pub next_id : ℕ

-- `New`
abbrev pub new_center : Center
new_center = record { events = []; next_id = 1 }

abbrev pub level_eq : Level → Level → Bool
level_eq info info = true
level_eq warn warn = true
level_eq error error = true
level_eq _ _ = false

abbrev pub text_eq : Str → Str → Bool
text_eq [] [] = true
text_eq (c ∷ s) (d ∷ t) = c == d && text_eq s t
text_eq _ _ = false

-- Is this the message with that level, title and text?
abbrev pub is_same : Level → Str → Str → Event → Bool
is_same level title text e =
    level_eq e.level level && (text_eq e.title title && text_eq e.text text)

-- The loop of `Post`: the newest event that is the same gets the time `now` if it is inside the
-- window; `none` where a new event is needed.
unfoldable pub refresh_event : ℕ → Level → Str → Str → List Event → Option (List Event × Event)
refresh_event now level title text [] = none
refresh_event now level title text (e ∷ es) =
    let rest = refresh_event now level title text es in
    if is_same level title text e
    then (if ltb now (e.at + dedupe_window)
        then some (record e { at = now } ∷ es, record e { at = now })
        else none)
    else elim rest [ none ↦ none | some (fs, dup) ↦ some (e ∷ fs, dup) ]

abbrev pub new_event : Center → ℕ → Level → Str → Str → Event
new_event c now level title text = record {
  id = c.next_id;
  at = now;
  level = level;
  title = title;
  text = text;
  read = false;
}

-- `Post` with what the loop found.
unfoldable pub post_found : Center → Event → Option (List Event × Event) → Center × (Event × Bool)
post_found c ev (some (es, dup)) = (record c { events = es }, (dup, false))
post_found c ev none =
    (record c { events = take max_kept (ev ∷ c.events); next_id = c.next_id + 1 }, (ev, true))

-- `Post`: the event, and whether it goes to the sinks.
unfoldable pub post : Center → ℕ → Level → Str → Str → Center × (Event × Bool)
unfolding post_found refresh_event
post c now level title text =
    post_found c (new_event c now level title text) (refresh_event now level title text c.events)

-- `List`
abbrev pub list_events : Center → List Event
list_events c = c.events

unfoldable pub unread_events : List Event → ℕ
unread_events [] = 0
unread_events (e ∷ es) = if e.read then unread_events es else unread_events es + 1

-- `Unread`
unfoldable pub unread : Center → ℕ
unfolding unread_events
unread c = unread_events c.events

unfoldable pub mark_events : ℕ → List Event → List Event
mark_events id [] = []
mark_events id (e ∷ es) =
    (if id == 0 || e.id == id then record e { read = true } else e) ∷ mark_events id es

-- `MarkRead`: 0 stands for all.
unfoldable pub mark_read : Center → ℕ → Center
unfolding mark_events
mark_read c id = record c { events = mark_events id c.events }

-- `Clear`
unfoldable pub clear : Center → Center
clear c = record c { events = [] }
