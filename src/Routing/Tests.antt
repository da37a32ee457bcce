-- ===== src/Routing/Tests.antt =====
-- Three rules of a project: two with conditions, and the default.
use helpdesk_agent.Prelude.{ℕ, ◌≡◌, refl, String, true, false, none, [], ◌∷◌, ok, All}
use helpdesk_agent.Rules.Value.{Value, null, str, obj, field, end, equal}
use helpdesk_agent.Rules.Evaluate.{evaluate}
use helpdesk_agent.Routing.Models.{RoutingTicket, RoutingRuleVersion}
use helpdesk_agent.Routing.Select.{Route, entry, specificity, routing_values, select_rule, Route}
use helpdesk_agent.Routing.Total.{Usable, select_rule-total}
use helpdesk_agent.Routing.Choice.{IsRoute, select_rule-IsRoute}

abbrev rule_of : ℕ → ℕ → Value → RoutingRuleVersion
rule_of id priority condition = record {
  routing_rule_id = id;
  routing_rule_version_id = id;
  version_number = 1;
  rule_priority = priority;
  condition = condition;
  assignment_group_id = id;
  assignment_method = "GROUP_ONLY";
  assignee_user_id = none;
  effective_from = none;
  group_code = "GROUP";
}

abbrev asks : String → String → Value
asks name text =
    obj (field "field" (str name) (field "operator" (str "equals") (field "value" (str text) end)))

abbrev urgent : RoutingRuleVersion
urgent = rule_of 3 1 (asks "priority_code" "P1")

abbrev printers : RoutingRuleVersion
printers = rule_of 2 5 (asks "field.device" "printer")

abbrev fallback_rule : RoutingRuleVersion
fallback_rule = rule_of 1 9 null

abbrev printer_ticket : RoutingTicket
printer_ticket = record {
  ticket_id = 1;
  tenant_id = 1;
  ticket_key = "IT-1";
  project_id = "1";
  project_code = "IT";
  service_node_id = none;
  service_node_code = none;
  service_code = none;
  module_code = none;
  environment_code = none;
  work_type_code = "INCIDENT";
  priority_code = "P3";
  status_code = "NEW";
  summary = "";
  description = none;
  assignment_group_id = none;
  assignee_user_id = none;
  row_version = 1;
  custom_fields = ("device", str "printer") ∷ [];
}

abbrev printer_route : Route
printer_route = record {
  chosen = printers;
  fallback = false;
  evaluated_rules = entry urgent false false ∷ entry printers true false ∷ [];
}

printer_route_selected :
    select_rule (printers ∷ fallback_rule ∷ urgent ∷ []) printer_ticket ≡ ok printer_route
unfolding select_rule routing_values specificity evaluate equal
printer_route_selected = refl

select_rule-IsRoute_example :
    IsRoute (printers ∷ fallback_rule ∷ urgent ∷ []) (routing_values printer_ticket) printer_route
select_rule-IsRoute_example =
    select_rule-IsRoute (printers ∷ fallback_rule ∷ urgent ∷ []) printer_ticket printer_route
      printer_route_selected

conditional_rules-Usable : All (Usable (routing_values printer_ticket)) (printers ∷ urgent ∷ [])
unfolding routing_values specificity evaluate equal
conditional_rules-Usable = (((1, refl), (true, refl)), (((1, refl), (false, refl)), tt))

select_rule-total_example :
    (route : Route) × (select_rule (printers ∷ fallback_rule ∷ urgent ∷ []) printer_ticket
      ≡ ok route)
select_rule-total_example =
    select_rule-total (printers ∷ fallback_rule ∷ urgent ∷ []) printer_ticket fallback_rule refl
      refl conditional_rules-Usable
