-- ===== src/Routing/Total.antt =====
-- When `_select_rule` returns a route.
use helpdesk_agent.Prelude.{
  ℕ, ◌≡◌, refl, Bool, true, false, List, [], ◌∷◌, All, Bool-cases, inl, inr, ok, map_result,
}
use helpdesk_agent.Rules.Evaluate.{Values, evaluate}
use helpdesk_agent.Routing.Models.{RoutingTicket, RoutingRuleVersion}
use helpdesk_agent.Routing.Select.{
  Ranked, rule_le, insert_rule, sort_rules, specificity, ranked, default_rules, conditional_rules,
  has_two_versions, Route, entry, after_no_match, first_match, routing_values, select_rule,
}

-- A rule whose condition has a sort key and is decided by the values.
abbrev pub Usable : Values → RoutingRuleVersion → Type 0
Usable values r =
    ((n : ℕ) × (specificity r.condition ≡ ok n))
    × ((b : Bool) × (evaluate r.condition values ≡ ok b))

module _ (values : Values) where
  abbrev Decided : Ranked → Type 0
  Decided r = (b : Bool) × (evaluate r.rule.condition values ≡ ok b)

  ranked-total :
      (rules : List RoutingRuleVersion)
      → All (Usable values) rules
      → (candidates : List Ranked) × (map_result ranked rules ≡ ok candidates)
        × All Decided candidates
  ranked-total [] h = ([], refl, tt)
  ranked-total (r ∷ rules) h =
      let (n, keyed) = h.0.0 in
      let (rest, found, later) = ranked-total rules h.1 in
      (record { rank = n; rule = r } ∷ rest, rw (keyed, found) refl, (h.0.1, later))

  insert-Decided :
      (r : Ranked) (l : List Ranked) → Decided r → All Decided l → All Decided (insert_rule r l)
  insert-Decided r [] d h = (d, tt)
  insert-Decided r (s ∷ l) d h = elim (Bool-cases (rule_le r s)) [
    | inl first ↦ rw first (d, h)
    | inr later ↦ rw later (h.0, insert-Decided r l d h.1)
  ]

  sort-Decided : (l : List Ranked) → All Decided l → All Decided (sort_rules l)
  sort-Decided [] h = tt
  sort-Decided (r ∷ l) h = insert-Decided r (sort_rules l) h.0 (sort-Decided l h.1)

  asked_rule-total :
      (default : RoutingRuleVersion) (r : Ranked) (l : List Ranked) (b : Bool) (later : Route)
      → evaluate r.rule.condition values ≡ ok b
      → first_match default values l ≡ ok later
      → (route : Route) × (first_match default values (r ∷ l) ≡ ok route)
  asked_rule-total default r l true later e f = (
    record { chosen = r.rule; fallback = false; evaluated_rules = entry r.rule true false ∷ [] },
    rw e refl,
  )
  asked_rule-total default r l false later e f =
      (after_no_match (entry r.rule false false) later, rw (e, f) refl)

  first_match-total :
      (default : RoutingRuleVersion) (l : List Ranked)
      → All Decided l
      → (route : Route) × (first_match default values l ≡ ok route)
  first_match-total default [] h = (
    record { chosen = default; fallback = true; evaluated_rules = entry default true true ∷ [] },
    refl,
  )
  first_match-total default (r ∷ l) h =
      let (later, found) = first_match-total default l h.1 in
      asked_rule-total default r l h.0.0 later h.0.1 found

-- If no rule has two versions, one rule is the default, and every other rule has a condition with a
-- sort key that the ticket's values decide, then `_select_rule` returns a route.
pub select_rule-total :
    (versions : List RoutingRuleVersion) (ticket : RoutingTicket) (default : RoutingRuleVersion)
    → has_two_versions versions ≡ false
    → default_rules versions ≡ default ∷ []
    → All (Usable (routing_values ticket)) (conditional_rules versions)
    → (route : Route) × (select_rule versions ticket ≡ ok route)
unfolding select_rule
select_rule-total versions ticket default single one usable =
    let values = routing_values ticket in
    let (candidates, keyed, decisions) = ranked-total values (conditional_rules versions) usable in
    let (route, found) =
      first_match-total values default (sort_rules candidates)
        (sort-Decided values candidates decisions) in
    (route, rw (single, one, keyed) found)
