-- ===== src/Changes/Tests.antt =====
-- A ticket that is routed at its first version cannot be changed at that version again.
use helpdesk_agent.Prelude.{refl}
use helpdesk_agent.Routing.AssignTests.{
  groups, lead, new_desk, desk_of, route_answer, routed_answered,
}
use helpdesk_agent.Routing.AssignTests.{routed as routed_desk}
use helpdesk_agent.Changes.{Change, routed, change-once}

first_change : Change 1 "IT-1" 1 new_desk (desk_of routed_desk)
first_change = routed groups lead 3 "key" route_answer refl routed_answered

change-once_example : ¬ Change 1 "IT-1" 1 (desk_of routed_desk) new_desk
change-once_example =
    change-once 1 "IT-1" 1 new_desk (desk_of routed_desk) new_desk (refl, tt) first_change
