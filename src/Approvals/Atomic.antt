-- ===== src/Approvals/Atomic.antt =====
-- What a call of `decide` that raises leaves behind.
use helpdesk_agent.Prelude.{
  ℕ, ◌≡◌, refl, sym, ap, ◌∙◌, ◌⊎◌, inl, inr, String, Bool, true, false, Option, none, some, Result,
  ok, err,
}
use helpdesk_agent.Approvals.Models.{ApprovalView, expired}
use helpdesk_agent.Approvals.Tables.{
  ApprovalError, conflict, Tables, Step, done, raised, committed, ◌>>=◌, find_approval,
  map_approval, close_if_pending, view_of, view_for_user,
}
use helpdesk_agent.Approvals.Service.{
  Directory, Command, stripped, decide_once, answer, ended, respond, transaction, decide,
}
use helpdesk_agent.Approvals.Replay.{decide_once-IsFirst, first-IsRecorded}
use helpdesk_agent.Approvals.View.{recorded-view_of}
use helpdesk_agent.Approvals.Commits.{Expires, decide_once-Expires}

module _ (tenant_id id user : ℕ) where
  answered-respond :
      (s u t : Tables) (v : ApprovalView) (e : ApprovalError)
      → view_of tenant_id user (find_approval id u.approvals) ≡ some v
      → respond tenant_id id user (ended s (done none u)) ≡ (err e, t)
      → ⊥
  unfolding transaction answer view_for_user ◌>>=◌
  answered-respond s u t v e seen q = clash (rw seen at q)
    where
      clash :
          ◌≡◌ {A = Result ApprovalError (ApprovalView × Bool) × Tables}
            (ok (v, false), u)
            (err e, t)
          → ⊥
      clash h = cc

  failed-respond :
      (now : ℕ) (s t : Tables) (e : ApprovalError) (r : Step (Option ApprovalView))
      → Expires now id s r
      → ((u : Tables)
          → r ≡ done none u
          → (v : ApprovalView) × (view_of tenant_id user (find_approval id u.approvals) ≡ some v))
      → respond tenant_id id user (ended s r) ≡ (err e, t)
      → (t ≡ s)
        ⊎ ((e ≡ conflict)
            × (t.approvals ≡ map_approval id (close_if_pending now expired) s.approvals)
            × (t.tickets ≡ s.tickets))
  failed-respond now s t e (done none u) h k q =
      let (v, seen) = k u refl in absurd (answered-respond s u t v e seen q)
  failed-respond now s t e (done (some v) u) h k q = cc
  failed-respond now s t e (raised x) h k q = inl cc
  failed-respond now s t e (committed x u) h k q =
      let same : x ≡ e = cc in
      let after : u ≡ t = cc in
      inr (
        sym same ∙ h.0,
        sym (ap (λ z. z.approvals) after) ∙ h.1,
        sym (ap (λ z. z.tickets) after) ∙ h.2,
      )

-- A call that raises changes no table, except that one that raises a conflict may have closed its
-- approval as expired, if that was pending: then all other approvals and all tickets are as before.
-- So an error leaves no vote and no moved ticket, also not when the answer is read afterwards.
pub decide-failed :
    (dir : Directory) (now tenant_id user id : ℕ) (command : Command) (key : String) (s t : Tables)
    (e : ApprovalError)
    → decide dir now true (some (tenant_id, user)) id command key s ≡ (err e, t)
    → (t ≡ s)
      ⊎ ((e ≡ conflict)
          × (t.approvals ≡ map_approval id (close_if_pending now expired) s.approvals)
          × (t.tickets ≡ s.tickets))
unfolding decide transaction
decide-failed dir now tenant_id user id command key s t e q =
    failed-respond tenant_id id user now s t e (decide_once dir now tenant_id user id command key s)
      (decide_once-Expires dir now tenant_id user id command key s)
      (λ u once.
        let f = decide_once-IsFirst dir now tenant_id user id command key s u once in
        let r = first-IsRecorded dir now tenant_id user id command key s u f in
        (_, recorded-view_of now tenant_id user id command (stripped dir.strip command.comment) r))
      q
