-- ===== src/Approvals/Tables/Store.antt =====
-- The tables that approvals are kept in, transactions over them, and `_record_fact` of
-- apps/api/app/approvals/repository.py.
use helpdesk_agent.Prelude.{ℕ, Bool, ◌&&◌, List, [], ◌∷◌, ◌++◌, ◌==◌, if◌then◌else◌, any}
use helpdesk_agent.Approvals.Models.{
  ApprovalTicket, Approval, FactType, approval_requested, approval_decided, approval_expired,
  approval_cancelled, Fact, IdempotencyRecord,
}

pub data ApprovalError : Type 0 where
  configuration_error not_found authorization_denied conflict : ApprovalError
  concurrency_error validation_failed idempotency_conflict uncaught : ApprovalError

pub record Tables : Type 0 where
  pub approvals : List Approval
  pub next_id : ℕ
  pub tickets : List ApprovalTicket
  pub facts : List Fact
  pub outbox : List Fact
  pub workflow_outbox : List ℕ
  pub idempotency : List IdempotencyRecord

-- The end of a step inside a transaction: a value, an exception, or a commit and then an exception.
pub data Step {ℓ} (A : Type ℓ) : Type ℓ where
  done : A → Tables → Step A
  raised : ApprovalError → Step A
  committed : ApprovalError → Tables → Step A

abbrev pub Work {ℓ} : Type ℓ → Type ℓ
Work A = Tables → Step A

abbrev pub then_work {ℓ} : {A B : Type ℓ} → Step A → (A → Work B) → Step B
then_work (done a s) f = f a s
then_work (raised e) f = raised e
then_work (committed e s) f = committed e s

pub pure {ℓ} : {A : Type ℓ} → A → Work A
pure a s = done a s

pub raise {ℓ} : {A : Type ℓ} → ApprovalError → Work A
raise e s = raised e

pub commit_raise {ℓ} : {A : Type ℓ} → ApprovalError → Work A
commit_raise e s = committed e s

pub modify : (Tables → Tables) → Work (Unit {0})
modify f s = done tt (f s)

pub gets {ℓ} : {A : Type ℓ} → (Tables → A) → Work A
gets f s = done (f s) s

infixl 5 ◌>>=◌ ◌>>◌
-- Opening this opens the other steps too.
unfoldable pub ◌>>=◌ {ℓ} : {A B : Type ℓ} → Work A → (A → Work B) → Work B
unfolding pure raise commit_raise modify gets
◌>>=◌ m f s = then_work (m s) f

abbrev pub ◌>>◌ : {B : Type 0} → Work (Unit {0}) → Work B → Work B
m >> k = m >>= λ _. k

-- `_record_fact`: the event and the audit entry, and the outbox event unless its key is there.
abbrev pub fact_code : FactType → ℕ
fact_code approval_requested = 0
fact_code approval_decided = 1
fact_code approval_expired = 2
fact_code approval_cancelled = 3

abbrev pub same_fact : Fact → Fact → Bool
same_fact f g =
    fact_code f.fact_type == fact_code g.fact_type
    && (f.fact_approval_id == g.fact_approval_id && f.fact_version == g.fact_version)

abbrev pub with_fact : Fact → Tables → Tables
with_fact f s = record s {
  facts = s.facts ++ f ∷ [];
  outbox = if any (same_fact f) s.outbox then s.outbox else s.outbox ++ f ∷ [];
}

unfoldable pub record_fact : FactType → ℕ → ℕ → Work (Unit {0})
record_fact type approval_id version = modify (
    with_fact (record { fact_type = type; fact_approval_id = approval_id; fact_version = version }))
