-- ===== src/Notify/Tests.antt =====
-- A node that flickers.
use quic_diver.Base.{◌≡◌, refl, [], ◌∷◌, bytes, false, arith}
use quic_diver.Notify.{warn, info, Event, Center, new_center, post, unread, mark_read, clear}
use quic_diver.Notify.Order.{IsValid, post-IsValid}

program : Unit {0}
unfolding post unread mark_read clear
program = tt

new_center-IsValid : IsValid new_center
new_center-IsValid = record { order = tt; bound = omega arith; start = omega arith }

abbrev down : Event
down = record {
  id = 1;
  at = 5;
  level = warn;
  title = bytes "node";
  text = bytes "down";
  read = false;
}

abbrev posted : Center
posted = record { events = down ∷ []; next_id = 2 }

posted_first : (post new_center 5 warn (bytes "node") (bytes "down")).0 ≡ posted
unfolding program
posted_first = refl

other_level : (post posted 6 info (bytes "node") (bytes "down")).0.next_id ≡ 3
unfolding program
other_level = refl

cleared : (clear posted).events ≡ []
unfolding program
cleared = refl

post-IsValid_example : IsValid (post new_center 5 warn (bytes "node") (bytes "down")).0
post-IsValid_example =
    post-IsValid new_center 5 warn (bytes "node") (bytes "down") new_center-IsValid
