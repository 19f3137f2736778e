-- ===== src/Rules/Path.antt =====
-- A rule's exit given as a list of nodes, from the client's rule to the first node.
use quic_diver.Base.{
  ◌≡◌, refl, ap, ◌∙◌, ◌≢◌, true, false, [], ◌++◌, arith, Str, Str-discrete, if_neg, bytes,
  trim_space, contains_byte, has_prefix,
}
use quic_diver.Base.Trim.{IsTrimmed, trim_space-IsTrimmed, trim_space_fix, append-IsTrimmed}
use quic_diver.Label.{err, unknown_kind, parse, parse_trimmed}
use quic_diver.Rules.Geo.{str_eq, normalize_outbound, normalize_trimmed}

-- A list of nodes: with a comma, and without the prefix that marks a list.
pub record IsNodeList (t : Str) : Type 0 where
  pub comma : contains_byte t b',' ≡ true
  pub unmarked : has_prefix t (bytes "path:") ≡ false

other_text :
    (t u : Str) → contains_byte t b',' ≡ true → contains_byte u b',' ≡ false → str_eq t u ≡ false
other_text t u h k =
    if_neg (Str-discrete t u) (λ e. ground (arith, ap (λ (x : Str). contains_byte x b',') e)) true
      false

normalize_trimmed_path : (t : Str) → IsNodeList t → normalize_trimmed t ≡ bytes "path:" ++ t
unfolding normalize_trimmed
normalize_trimmed_path t h = rw (
  other_text t [] h.comma refl,
  other_text t (bytes "direct") h.comma refl,
  other_text t (bytes "chain") h.comma refl,
  other_text t (bytes "exit") h.comma refl,
  h.comma,
  h.unmarked,
)

parse_path :
    (t : Str)
    → t ≢ []
    → IsTrimmed t
    → parse (bytes "path:" ++ t) ≡ err (unknown_kind (bytes "path:" ++ t))
unfolding parse parse_trimmed
parse_path t other h =
    ap parse_trimmed (
      trim_space_fix (bytes "path:" ++ t)
        (append-IsTrimmed (bytes "path:") t (λ e. cc) refl other h))
    ∙ if_neg (Str-discrete (bytes "path:" ++ t) (bytes "direct")) (λ e. ground arith) _ _

-- The label that the client makes of a list of nodes is one that no node can read.
pub path_label_refused :
    (out : Str)
    → IsNodeList (trim_space out)
    → parse (normalize_outbound out) ≡ err (unknown_kind (bytes "path:" ++ trim_space out))
unfolding normalize_outbound
path_label_refused out h =
    ap parse (normalize_trimmed_path (trim_space out) h)
    ∙ parse_path (trim_space out)
        (λ e. ground (arith, ap (λ (x : Str). contains_byte x b',') e, h.comma))
        (trim_space-IsTrimmed out)
