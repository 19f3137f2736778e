-- ===== src/Label/Tests.antt =====
-- Labels at concrete texts.
use quic_diver.Base.{◌≡◌, refl, bytes, Str-discrete, trim_space, Str}
use quic_diver.Label.{ok, parse, auto_route, direct}

abbrev b : Str
b = bytes " auto: de "

parse_auto_example : parse b ≡ ok (auto_route (bytes "de"))
unfolding parse trim_space Str-discrete
parse_auto_example = refl

parse-direct_example : parse (bytes " direct") ≡ ok direct
unfolding parse trim_space Str-discrete
parse-direct_example = refl
