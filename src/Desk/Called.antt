-- ===== src/Desk/Called.antt =====
-- The common frame of `route` and `assign_manual` of apps/api/app/routing/service.py: the permission,
-- the identity, the checks of the command, the ticket that the caller sees, and the key.
use helpdesk_agent.Prelude.{ℕ, ◌≡◌, sym, ap, ◌∙◌, String, Bool, true, false, Option, some, ok}
use helpdesk_agent.Desk.Store.{
  Desk, authorization_denied, not_found, validation_failed, Operation, Payload,
}
use helpdesk_agent.Desk.Steps.{
  Action, ◌>>=◌, ◌>>◌, reads, need, require, >>=-ok, need-ok, require-ok, >>=-from, need-some,
}
use helpdesk_agent.Desk.Tickets.{Context}
use helpdesk_agent.Desk.Once.{once}
use helpdesk_agent.Desk.Replay.{once-replayed}
use mathlib.Core.Path.{subst}

module _ {T : Type 0} (context : Context) (valid : Bool) (find : ℕ → Desk → Option T)
    (op : Operation) (key : String) (hash : ℕ) where
  unfoldable pub called : (ℕ → ℕ → Action Payload) → Action (Payload × Bool)
  called body =
      require context.may_act authorization_denied
      >> (need authorization_denied context.identity >>= λ who.
          require valid validation_failed
          >> (reads (find who.0) >>= λ found.
              need not_found found >>= λ _. once who.0 who.1 op key hash (body who.0 who.1)))

  -- A call that returns came through the checks and its key.
  pub record IsCalled (body : ℕ → ℕ → Action Payload) (s : Desk) (answer : Payload × Bool)
      (s' : Desk) : Type 0 where
    pub tenant : ℕ
    pub user : ℕ
    pub may : context.may_act ≡ true
    pub who : context.identity ≡ some (tenant, user)
    pub is_valid : valid ≡ true
    pub seen : T
    pub is_seen : find tenant s ≡ some seen
    pub call : once tenant user op key hash (body tenant user) s ≡ ok (answer, s')

  pub called-IsCalled :
      (body : ℕ → ℕ → Action Payload) (s : Desk) (answer : Payload × Bool) (s' : Desk)
      → called body s ≡ ok (answer, s')
      → IsCalled body s answer s'
  unfolding called
  called-IsCalled body s answer s' h =
      let (_, s₁, allowed, h₁) = >>=-ok (require context.may_act authorization_denied s) _ h in
      let (may, e₁) = require-ok context.may_act authorization_denied s s₁ allowed in
      let ((tenant, user), s₂, identity, h₂) =
        >>=-ok (need authorization_denied context.identity s₁) _ h₁ in
      let (who, e₂) = need-ok authorization_denied context.identity s₁ identity in
      let (_, s₃, checks, h₃) = >>=-ok (require valid validation_failed s₂) _ h₂ in
      let (is_valid, e₃) = require-ok valid validation_failed s₂ s₃ checks in
      let (t, s₄, visible, h₄) = >>=-ok (need not_found (find tenant s₃) s₃) _ h₃ in
      let (found, e₄) = need-ok not_found _ s₃ visible in
      let back : s₃ ≡ s = e₃ ∙ (e₂ ∙ e₁) in
      record {
        tenant = tenant;
        user = user;
        may = may;
        who = who;
        is_valid = is_valid;
        seen = t;
        is_seen = ap (find tenant) (sym back) ∙ found;
        call =
            subst (λ d. once tenant user op key hash (body tenant user) d ≡ ok (answer, s'))
              (e₄ ∙ back) h₄;
      }

  -- The same call again, if its work leaves the keys alone and the ticket is still seen.
  pub called-replayed :
      (body again : ℕ → ℕ → Action Payload) (s : Desk) (payload : Payload) (s' : Desk)
      → called body s ≡ ok ((payload, false), s')
      → ((tenant user : ℕ) (u v : Desk) (p : Payload)
          → body tenant user u ≡ ok (p, v)
          → v.idempotency ≡ u.idempotency)
      → ((c : IsCalled body s (payload, false) s') → (t : T) × (find c.tenant s' ≡ some t))
      → called again s' ≡ ok ((payload, true), s')
  unfolding called
  called-replayed body again s payload s' h keeps still =
      let c = called-IsCalled body s (payload, false) s' h in
      let (t, seen) = still c in
      let replay =
        once-replayed c.tenant c.user op key hash (body c.tenant c.user) (again c.tenant c.user) s
          payload s' c.call (keeps c.tenant c.user) in
      >>=-from (require context.may_act authorization_denied s') _
        (ap (λ b. require b authorization_denied s') c.may)
        (>>=-from (need authorization_denied context.identity s') _
          (need-some authorization_denied context.identity s' c.who)
          (>>=-from (require valid validation_failed s') _
            (ap (λ b. require b validation_failed s') c.is_valid)
            (>>=-from (need not_found (find c.tenant s') s') _ (need-some not_found _ s' seen)
              replay)))
