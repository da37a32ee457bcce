-- ===== src/Desk/Once.antt =====
-- A request with an idempotency key, as `execute` of apps/api/app/workflows/service.py and `route` and
-- `assign_manual` of apps/api/app/routing/service.py handle it: a record of the key is claimed, and
-- completed with the payload of the answer.
use package.text.Mathlib.Text.{◌==◌ as text_eq}
use helpdesk_agent.Prelude.{
  ℕ, String, Bool, true, false, not, ◌&&◌, ◌||◌, Option, none, some, List, [], ◌∷◌, ◌++◌, ◌==◌,
  if◌then◌else◌, ok,
}
use helpdesk_agent.Desk.Store.{
  Operation, ticket_transition, ticket_route, ticket_assign_manual, Payload, KeyRow,
  idempotency_conflict,
}
use helpdesk_agent.Desk.Steps.{Action, ◌>>=◌, ◌>>◌, pure, raise, writes}

abbrev operation_code : Operation → ℕ
operation_code ticket_transition = 0
operation_code ticket_route = 1
operation_code ticket_assign_manual = 2

-- The unique key of the table.
abbrev pub is_key : ℕ → Operation → String → KeyRow → Bool
is_key tenant_id op key r =
    r.tenant_id == tenant_id
    && (operation_code r.operation == operation_code op && text_eq r.idempotency_key key)

abbrev pub find_key : ℕ → Operation → String → List KeyRow → Option KeyRow
find_key tenant_id op key [] = none
find_key tenant_id op key (r ∷ rest) =
    if is_key tenant_id op key r then some r else find_key tenant_id op key rest

abbrev pub claimed : KeyRow → Option KeyRow → Action KeyRow
claimed fresh (some found) s = ok (found, s)
claimed fresh none s = ok (fresh, record s { idempotency = s.idempotency ++ fresh ∷ [] })

abbrev pub new_key : ℕ → ℕ → Operation → String → ℕ → KeyRow
new_key tenant_id user_id op key hash = record {
  tenant_id = tenant_id;
  operation = op;
  idempotency_key = key;
  principal_id = user_id;
  request_hash = hash;
  response_payload = none;
}

-- `claim_idempotency`
unfoldable pub claim_idempotency : ℕ → ℕ → Operation → String → ℕ → Action KeyRow
claim_idempotency tenant_id user_id op key hash s =
    claimed (new_key tenant_id user_id op key hash) (find_key tenant_id op key s.idempotency) s

abbrev pub complete_row : ℕ → Operation → String → Payload → List KeyRow → List KeyRow
complete_row tenant_id op key payload [] = []
complete_row tenant_id op key payload (r ∷ rest) =
    let later = complete_row tenant_id op key payload rest in
    if is_key tenant_id op key r
    then record r { response_payload = some payload } ∷ later
    else r ∷ later

-- `complete_idempotency`: the record is found by its key, which is unique.
unfoldable pub complete_idempotency : KeyRow → Payload → Action (Unit {0})
complete_idempotency r payload = writes λ s. record s {
  idempotency = complete_row r.tenant_id r.operation r.idempotency_key payload s.idempotency;
}

abbrev pub is_foreign : ℕ → ℕ → KeyRow → Bool
is_foreign hash user_id r = not (r.request_hash == hash) || not (r.principal_id == user_id)

-- The answer to a request, and whether it is a replay.
abbrev pub completing : KeyRow → Payload → Action (Payload × Bool)
completing r payload = complete_idempotency r payload >> pure (payload, false)

abbrev pub answered_or : Action Payload → KeyRow → Option Payload → Action (Payload × Bool)
answered_or body r (some payload) = pure (payload, true)
answered_or body r none = body >>= completing r

unfoldable pub once : ℕ → ℕ → Operation → String → ℕ → Action Payload → Action (Payload × Bool)
once tenant_id user_id op key hash body = claim_idempotency tenant_id user_id op key hash >>= λ r.
    if is_foreign hash user_id r
    then raise idempotency_conflict
    else answered_or body r r.response_payload
