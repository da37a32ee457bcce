-- ===== src/Routing/Choice.antt =====
-- What `_select_rule` chooses.
use mathlib.Core.List.{Perm}
use helpdesk_agent.Prelude.{
  ◌≡◌, refl, sym, ap, ◌⊎◌, inl, inr, Bool, true, false, List, [], ◌∷◌, ◌++◌, map, All, Bool-cases,
  if◌then◌else◌, Result, ok, err, >>=-eq-ok, ok_inj, ◌>>=◌, map_result,
}
use helpdesk_agent.Rules.Evaluate.{RuleError, invalid_rule, type_error, Values, evaluate}
use helpdesk_agent.Routing.Models.{RoutingTicket, RoutingRuleVersion}
use helpdesk_agent.Routing.Select.{
  RoutingError, Ranked, sort_rules, ranked, default_rules, conditional_rules, has_two_versions,
  Route, Evaluated, entry, decided, after_no_match, first_match, routing_values, with_default,
  select_rule,
}
use helpdesk_agent.Routing.Order.{Sorted, sort_rules-Perm, sort_rules-Sorted}

abbrev refused_entry : Ranked → Evaluated
refused_entry r = entry r.rule false false

-- How the loop over the candidates has ended: after all of them, or at one that matches.
pub record IsScan (default : RoutingRuleVersion) (values : Values) (ordered : List Ranked)
    (route : Route) : Type 0 where
  pub before : List Ranked
  pub refused : All (λ r. evaluate r.rule.condition values ≡ ok false) before
  pub outcome :
      ((route.fallback ≡ true) × (route.chosen ≡ default) × (ordered ≡ before))
      ⊎ ((r : Ranked) × (after : List Ranked) × (route.fallback ≡ false)
          × (route.chosen ≡ r.rule)
          × (evaluate r.rule.condition values ≡ ok true)
          × (ordered ≡ before ++ r ∷ after))
  pub recorded :
      route.evaluated_rules
      ≡ map refused_entry before ++ entry route.chosen true route.fallback ∷ []

decided-ok : (r : Result RuleError Bool) (b : Bool) → decided r ≡ ok b → r ≡ ok b
decided-ok (ok x) b h = ap ok (ok_inj h)
decided-ok (err invalid_rule) b h = cc
decided-ok (err type_error) b h = cc

module _ (default : RoutingRuleVersion) (values : Values) where
  passed-IsScan :
      (r : Ranked) (rest : List Ranked) (route : Route)
      → evaluate r.rule.condition values ≡ ok false
      → IsScan default values rest route
      → IsScan default values (r ∷ rest) (after_no_match (refused_entry r) route)
  passed-IsScan r rest route no_match h = record {
    before = r ∷ h.before;
    refused = (no_match, h.refused);
    outcome = elim h.outcome [
      | inl (f, c, o) ↦ inl (f, c, ap (λ l. r ∷ l) o)
      | inr (s, after, f, c, e, o) ↦ inr (s, after, f, c, e, ap (λ l. r ∷ l) o)
    ];
    recorded = ap (λ l. refused_entry r ∷ l) h.recorded;
  }

  asked-IsScan :
      (r : Ranked) (rest : List Ranked) (route : Route) (matched : Bool)
      → ((later : Route)
          → first_match default values rest ≡ ok later
          → IsScan default values rest later)
      → evaluate r.rule.condition values ≡ ok matched
      → (if matched
          then ok (record {
            chosen = r.rule;
            fallback = false;
            evaluated_rules = entry r.rule true false ∷ [];
          })
          else first_match default values rest >>= λ later.
              ok (after_no_match (refused_entry r) later))
        ≡ ok route
      → IsScan default values (r ∷ rest) route
  asked-IsScan r rest route true k d q = rw (sym (ok_inj q)) (record {
    before = [];
    refused = tt;
    outcome = inr (r, rest, refl, refl, d, refl);
    recorded = refl;
  })
  asked-IsScan r rest route false k d q =
      let (later, found, same) = >>=-eq-ok (first_match default values rest) _ q in
      rw (sym (ok_inj same)) (passed-IsScan r rest later d (k later found))

  pub first_match-IsScan :
      (ordered : List Ranked) (route : Route)
      → first_match default values ordered ≡ ok route
      → IsScan default values ordered route
  first_match-IsScan [] route e =
      rw (sym (ok_inj e))
        (record { before = []; refused = tt; outcome = inl (refl, refl, refl); recorded = refl })
  first_match-IsScan (r ∷ rest) route e =
      let (matched, decision, outcome) =
        >>=-eq-ok (decided (evaluate r.rule.condition values)) _ e in
      asked-IsScan r rest route matched (first_match-IsScan rest)
        (decided-ok (evaluate r.rule.condition values) matched decision) outcome

-- The rules of a project in the order in which they are asked, and the route that they give.
pub record IsRoute (versions : List RoutingRuleVersion) (values : Values) (route : Route)
    : Type 0 where
  pub default : RoutingRuleVersion
  pub candidates : List Ranked
  pub ordered : List Ranked
  pub one_version : has_two_versions versions ≡ false
  pub one_default : default_rules versions ≡ default ∷ []
  pub all_ranked : map_result ranked (conditional_rules versions) ≡ ok candidates
  pub complete : Perm ordered candidates
  pub in_order : Sorted ordered
  pub scan : IsScan default values ordered route

module _ (versions : List RoutingRuleVersion) (values : Values) (route : Route)
    (single : has_two_versions versions ≡ false) where
  with_default-IsRoute :
      (defaults : List RoutingRuleVersion)
      → default_rules versions ≡ defaults
      → with_default versions values defaults ≡ ok route
      → IsRoute versions values route
  with_default-IsRoute [] d e = cc
  with_default-IsRoute (default ∷ second ∷ rest) d e = cc
  with_default-IsRoute (default ∷ []) d e =
      let (candidates, keyed, first) =
        >>=-eq-ok (map_result ranked (conditional_rules versions)) _ e in
      record {
        default = default;
        candidates = candidates;
        ordered = sort_rules candidates;
        one_version = single;
        one_default = d;
        all_ranked = keyed;
        complete = sort_rules-Perm candidates;
        in_order = sort_rules-Sorted candidates;
        scan = first_match-IsScan default values (sort_rules candidates) route first;
      }

-- If `_select_rule` returns a route, then no rule has two versions, exactly one rule has no condition,
-- and every other rule has a sort key. With the other rules in the order of their keys, the route is
-- the first whose condition holds of the ticket, every rule before it being asked and refused, or, if
-- none holds, the rule without condition as the fallback; and exactly the rules that were asked are
-- recorded, in that order.
pub select_rule-IsRoute :
    (versions : List RoutingRuleVersion) (ticket : RoutingTicket) (route : Route)
    → select_rule versions ticket ≡ ok route
    → IsRoute versions (routing_values ticket) route
unfolding select_rule
select_rule-IsRoute versions ticket route e = elim (Bool-cases (has_two_versions versions)) [
  | inl two ↦ absurd (clash (rw two at e))
  | inr single ↦
      with_default-IsRoute versions (routing_values ticket) route single (default_rules versions)
        refl (rw single at e)
]
  where
    clash : {x : RoutingError} → err x ≡ ok route → ⊥
    clash q = cc
