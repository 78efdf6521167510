-- ===== src/Hooks/Filter/Laws.antt =====
-- A filter chain is the conjunction of its rules.
use harness_solomon.Base.{String, ◌≡◌, refl, sym, ap, ◌∙◌, ◌&&◌, List, [], ◌∷◌, ◌++◌, arith}
use harness_solomon.Base.Text.{Text, split, split-append, strip}
use harness_solomon.Hooks.Context.{Fields}
use harness_solomon.Hooks.Filter.{
  Fired, parse_rule, parse_rules, parse_filter_chain, matches_rules, matches_filter_chain,
}
use mathlib.Core.List.{append_assoc}

parse_rules-append : (xs ys : List Text) → parse_rules (xs ++ ys) ≡ parse_rules xs ++ parse_rules ys
unfolding parse_rules
parse_rules-append [] ys = refl
parse_rules-append (x ∷ xs) ys =
    rw (parse_rules-append xs ys)
      (sym (append_assoc (parse_rule (strip x)) (parse_rules xs) (parse_rules ys)))

parse_filter_chain-append :
    (s t : Text) → parse_filter_chain (s ++ b',' ∷ t) ≡ parse_filter_chain s ++ parse_filter_chain t
unfolding parse_filter_chain
parse_filter_chain-append s t =
    ap parse_rules (split-append b',' s t) ∙ parse_rules-append (split b',' s) (split b',' t)

module _ (str_dict : Fields → String) (f : Fired) where
  matches_rules-append :
      (xs ys : List (Text × Text))
      → matches_rules str_dict f (xs ++ ys)
        ≡ (matches_rules str_dict f xs && matches_rules str_dict f ys)
  unfolding matches_rules
  matches_rules-append [] ys = refl
  matches_rules-append ((name, pattern) ∷ xs) ys = ground (arith, matches_rules-append xs ys)

  -- Two chains joined by a comma accept what both accept.
  pub matches-append :
      (s t : Text)
      → matches_filter_chain str_dict (s ++ b',' ∷ t) f
        ≡ (matches_filter_chain str_dict s f && matches_filter_chain str_dict t f)
  unfolding matches_filter_chain
  matches-append s t =
      ap (matches_rules str_dict f) (parse_filter_chain-append s t)
      ∙ matches_rules-append (parse_filter_chain s) (parse_filter_chain t)
