-- ===== src/Rules/Tests.antt =====
-- Rules at work, and the theorems at concrete rules.
use quic_diver.Base.{
  Option, none, ◌≡◌, refl, false, [], ◌∷◌, Str, Str-discrete, bytes, trim_space, invalid, v4,
}
use quic_diver.Rules.Parse.{parse_rules, parsed, refused, bad_port, no_condition}
use quic_diver.Rules.{Match, Rule, Flow, is_process_rule, compile, classify, match_rule}
use quic_diver.Rules.Geo.{
  equal_fold, domain_matches, geo_site_matches, geo_ip_matches, normalize_outbound,
}
use quic_diver.Rules.Priority.{out_or, classify-compile, FirstOf, NamesOnlyProcess, out_or}

program : Unit {0}
unfolding compile classify match_rule is_process_rule equal_fold domain_matches geo_site_matches
    geo_ip_matches Str-discrete trim_space
program = tt

abbrev anything : Match
anything = record {
  process = [];
  domain = [];
  geo_site = [];
  geo_ip = [];
  cidr = record { addr = invalid; bits = 0 };
  port = 0;
}

-- All of a browser through one node, but one zone through another.
abbrev browser : Rule
browser = record { condition = record anything { process = bytes "Chrome.exe" }; out = bytes "two" }

abbrev zone : Rule
zone = record { condition = record anything { domain = bytes "cn" }; out = bytes "one" }

abbrev flow : Flow
flow = record {
  dst = record { addr = v4 0x01020304; port = 443 };
  domain = bytes "www.Example.CN.";
  process = bytes "chrome.EXE";
}

zone_wins : classify (compile (browser ∷ zone ∷ []) (bytes "direct")) flow ≡ bytes "one"
unfolding program
zone_wins = refl

not_a_subdomain : domain_matches (bytes "youtube.com") (bytes "notyoutube.com") ≡ false
unfolding program
not_a_subdomain = refl

classify-compile_example :
    (o : Option Rule) × (q : Option Rule) × FirstOf
      (λ r. ¬ NamesOnlyProcess r)
      flow
      (browser ∷ zone ∷ [])
      o
    × FirstOf NamesOnlyProcess flow (browser ∷ zone ∷ []) q
    × (classify (compile (browser ∷ zone ∷ []) (bytes "direct")) flow
        ≡ out_or o (out_or q (bytes "direct")))
classify-compile_example = classify-compile (browser ∷ zone ∷ []) (bytes "direct") flow

abbrev video : Str
video = bytes "dom:youtube.com = auto:de"

abbrev web : Str
web = bytes "port:443=direct"

video_rule :
    parse_rules (λ s. none) video
    ≡ parsed (
        record {
          condition = record no_condition { domain = bytes "youtube.com" };
          out = bytes "auto:de";
        }
        ∷ [])
unfolding parse_rules trim_space Str-discrete normalize_outbound
video_rule = refl

port_too_large :
    parse_rules (λ s. none) (bytes "port:65536=direct")
    ≡ refused (bad_port (bytes "port:65536=direct"))
unfolding parse_rules trim_space Str-discrete normalize_outbound
port_too_large = refl
