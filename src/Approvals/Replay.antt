-- ===== src/Approvals/Replay.antt =====
-- What `decide` answers the first time, and again.
use helpdesk_agent.Prelude.{
  ℕ, ◌≡◌, refl, sym, ap, ◌∙◌, String, Bool, true, false, Option, none, some, Option-cases, inl, inr,
  Result, ok, if◌then◌else◌,
}
use helpdesk_agent.Approvals.Models.{ApprovalView, IdempotencyRecord}
use helpdesk_agent.Approvals.Tables.{
  ApprovalError, idempotency_conflict, Tables, Step, done, raised, committed, Work, ◌>>=◌, pure,
  raise, find_approval, view_of, view_for_user, claim_idempotency, find_key,
}
use helpdesk_agent.Approvals.Service.{
  Directory, Command, stripped, is_foreign, answer, decide_locked, decide_once, ended, transaction,
  respond, decide, answered,
}
use helpdesk_agent.Approvals.Recorded.{bind-done, IsRecorded, decide_locked-IsRecorded}
use helpdesk_agent.Approvals.Keys.{find_key-complete_key, claim-found}

-- The ends of the parts of a first call that is answered without a replay.
pub record IsFirst (dir : Directory) (now tenant_id user id : ℕ) (command : Command) (key : String)
    (s t : Tables) : Type 0 where
  pub idem : IdempotencyRecord
  pub claimed_tables : Tables
  pub claim :
      claim_idempotency tenant_id user key
        (dir.request_hash id command.decision command.expected_version
          (stripped dir.strip command.comment))
        s
      ≡ done idem claimed_tables
  pub own :
      is_foreign idem
        (dir.request_hash id command.decision command.expected_version
          (stripped dir.strip command.comment))
        user
      ≡ false
  pub locked :
      decide_locked dir now tenant_id user id command
        (stripped dir.strip command.comment)
        idem
        claimed_tables
      ≡ done tt t

module _ (tenant_id id user : ℕ) where
  answer-seen :
      (u : Tables) (v : ApprovalView) (t : Tables)
      → answer tenant_id id user u ≡ done v t
      → (view_of tenant_id user (find_approval id u.approvals) ≡ some v) × (u ≡ t)
  unfolding answer view_for_user ◌>>=◌
  answer-seen u v t e =
      elim (Option-cases (view_of tenant_id user (find_approval id u.approvals))) [
        | inl missing ↦ absurd (lost (rw missing at e))
        | inr (w, found) ↦ let same = done_inj w (rw found at e) in (found ∙ ap some same.0, same.1)
      ]
    where
      lost : {x : ApprovalError} → raised x ≡ done v t → ⊥
      lost q = cc

      done_inj : (w : ApprovalView) → done w u ≡ done v t → (w ≡ v) × (u ≡ t)
      done_inj w q = (cc, cc)

  transaction-answer :
      (u : Tables) (v : ApprovalView) (r : Step ApprovalView) (t : Tables)
      → ◌≡◌ {A = Result ApprovalError (ApprovalView × Bool) × Tables}
          (answered false (ended u r).0, (ended u r).1)
          (ok (v, false), t)
      → r ≡ done v t
  transaction-answer u v (done w x) t e = cc
  transaction-answer u v (raised x) t e = cc
  transaction-answer u v (committed x y) t e = cc

  respond-first :
      (s : Tables) (r : Step (Option ApprovalView)) (v : ApprovalView) (t : Tables)
      → respond tenant_id id user (ended s r) ≡ (ok (v, false), t)
      → (r ≡ done none t) × (view_of tenant_id user (find_approval id t.approvals) ≡ some v)
  unfolding transaction
  respond-first s (done none u) v t e =
      let q = answer-seen u v t (transaction-answer u v (answer tenant_id id user u) t e) in
      (ap (λ x. done none x) q.1, rw (sym q.1) q.0)
  respond-first s (done (some w) u) v t e = cc
  respond-first s (raised x) v t e = cc
  respond-first s (committed x u) v t e = cc

not_raised :
    (b : Bool) (m : Work (Option ApprovalView)) (u t : Tables)
    → (if b then raise idempotency_conflict else m) u ≡ done none t
    → (b ≡ false) × (m u ≡ done none t)
unfolding ◌>>=◌
not_raised true m u t q = cc
not_raised false m u t q = (refl, q)

not_replayed :
    (tenant_id id user : ℕ) (b : Bool) (m : Work (Unit {0})) (u t : Tables)
    → (if b then (answer tenant_id id user >>= λ w. pure (some w)) else (m >>= λ _. pure none)) u
      ≡ done none t
    → (b ≡ false) × (m u ≡ done tt t)
unfolding ◌>>=◌
not_replayed tenant_id id user true m u t q =
    let (w, x, _, e) = bind-done (answer tenant_id id user) (λ w. pure (some w)) u none t q in
    absurd (clash w x e)
  where
    clash : (w : ApprovalView) (x : Tables) → done (some w) x ≡ done none t → ⊥
    clash w x e = cc
not_replayed tenant_id id user false m u t q =
    let (_, x, e1, e2) = bind-done m (λ _. pure none) u none t q in
    (refl, e1 ∙ ap (λ z. done tt z) (after x e2))
  where
    after : (x : Tables) → ◌≡◌ {A = Step (Option ApprovalView)} (done none x) (done none t) → x ≡ t
    after x e = cc

module _ (dir : Directory) (now tenant_id user id : ℕ) (command : Command) (key : String) where
  branch-IsFirst :
      (s u t : Tables) (idem : IdempotencyRecord)
      → claim_idempotency tenant_id user key
          (dir.request_hash id command.decision command.expected_version
            (stripped dir.strip command.comment))
          s
        ≡ done idem u
      → (if is_foreign idem
              (dir.request_hash id command.decision command.expected_version
                (stripped dir.strip command.comment))
              user
            then raise idempotency_conflict
            else if idem.completed
            then (answer tenant_id id user >>= λ w. pure (some w))
            else (decide_locked dir now tenant_id user id command
                  (stripped dir.strip command.comment)
                  idem
                >>= λ _. pure none))
          u
        ≡ done none t
      → IsFirst dir now tenant_id user id command key s t
  branch-IsFirst s u t idem claim e =
      let (own, rest) =
        not_raised
          (is_foreign idem
            (dir.request_hash id command.decision command.expected_version
              (stripped dir.strip command.comment))
            user)
          _ u t e in
      let (_, first) = not_replayed tenant_id id user idem.completed _ u t rest in
      record { idem = idem; claimed_tables = u; claim = claim; own = own; locked = first }

  pub decide_once-IsFirst :
      (s t : Tables)
      → decide_once dir now tenant_id user id command key s ≡ done none t
      → IsFirst dir now tenant_id user id command key s t
  unfolding decide_once
  decide_once-IsFirst s t e =
      let (idem, u, claim, rest) =
        bind-done
          (claim_idempotency tenant_id user key (
            dir.request_hash id command.decision command.expected_version
              (stripped dir.strip command.comment)))
          _ s none t e in
      branch-IsFirst s u t idem claim rest

  pub decide-IsFirst :
      (s t : Tables) (v : ApprovalView)
      → decide dir now true (some (tenant_id, user)) id command key s ≡ (ok (v, false), t)
      → IsFirst dir now tenant_id user id command key s t
        × (view_of tenant_id user (find_approval id t.approvals) ≡ some v)
  unfolding decide transaction
  decide-IsFirst s t v e =
      let (once, seen) =
        respond-first tenant_id id user s (decide_once dir now tenant_id user id command key s) v t
          e in
      (decide_once-IsFirst s t once, seen)

  pub first-IsRecorded :
      (s t : Tables) (f : IsFirst dir now tenant_id user id command key s t)
      → IsRecorded now tenant_id user id command
          (stripped dir.strip command.comment)
          f.idem
          f.claimed_tables
          t
  first-IsRecorded s t f =
      decide_locked-IsRecorded dir now tenant_id user id command
        (stripped dir.strip command.comment) f.idem f.claimed_tables t f.locked

  -- After a call that answered, a second call with the same request and key, at any time, answers
  -- with the same view, marked as a replay, and changes nothing.
  pub decide-replayed :
      (s t : Tables) (v : ApprovalView) (later : ℕ)
      → decide dir now true (some (tenant_id, user)) id command key s ≡ (ok (v, false), t)
      → decide dir later true (some (tenant_id, user)) id command key t ≡ (ok (v, true), t)
  unfolding decide transaction decide_once claim_idempotency answer view_for_user ◌>>=◌
  decide-replayed s t v later e =
      let (f, seen) = decide-IsFirst s t v e in
      let r = first-IsRecorded s t f in
      let (found, _, _) = claim-found tenant_id user key _ s f.claimed_tables f.idem f.claim in
      let again : find_key tenant_id key t.idempotency ≡ some (record f.idem { completed = true }) =
        rw r.idempotency_after
          (find_key-complete_key tenant_id key f.claimed_tables.idempotency f.idem found) in
      rw (again, f.own, seen) refl
