-- ===== src/Approvals/Votes.antt =====
-- What one recorded decision does to an approval's votes.
use helpdesk_agent.Prelude.{
  ℕ, suc, ◌≡◌, refl, sym, ◌∙◌, Bool, true, false, String, Option, none, some, List, [], ◌∷◌, any,
  length, arith, Unique, Bool-cases, inl, inr, ap, ==_iff,
}
use helpdesk_agent.Approvals.Models.{Decision, approve, reject, Approver}
use helpdesk_agent.Approvals.Tables.{
  is_approver, find_approver, is_decision, count_decided, decide_row, decide_rows,
}
use helpdesk_agent.Approvals.Service.{add_if}

abbrev pub same_voter : Approver → Approver → Bool
same_voter r = is_approver r.approver_user_id

unvoted : (e : Decision) (o : Option Decision) → o ≡ none → is_decision e o ≡ false
unvoted approve none n = refl
unvoted reject none n = refl
unvoted e (some d) n = cc

some_inj : {a b : Approver} → some a ≡ some b → a ≡ b
some_inj h = cc

module _ (now user : ℕ) (d : Decision) (comment : Option String) where
  pub length-decide_rows :
      (rows : List Approver) → length (decide_rows now user d comment rows) ≡ length rows
  length-decide_rows [] = refl
  length-decide_rows (r ∷ rows) = ap suc (length-decide_rows rows)

  any-decide_rows :
      (id : ℕ) (rows : List Approver)
      → any (is_approver id) (decide_rows now user d comment rows) ≡ any (is_approver id) rows
  any-decide_rows id [] = refl
  any-decide_rows id (r ∷ rows) = ground (arith, any-decide_rows id rows)

  pub decide_rows-Unique :
      (rows : List Approver)
      → Unique same_voter rows
      → Unique same_voter (decide_rows now user d comment rows)
  decide_rows-Unique [] u = tt
  decide_rows-Unique (r ∷ rows) u =
      (ground (arith, any-decide_rows r.approver_user_id rows), decide_rows-Unique rows u.1)

  -- Who does not vote changes nothing.
  count-absent :
      (e : Decision) (rows : List Approver)
      → any (is_approver user) rows ≡ false
      → count_decided e (decide_rows now user d comment rows) ≡ count_decided e rows
  count-absent e [] h = refl
  count-absent e (r ∷ rows) h = ground (arith, count-absent e rows)

  decide_row-decision :
      (r : Approver)
      → is_approver user r ≡ true
      → r.decision ≡ none
      → (decide_row now user d comment r).decision ≡ some d
  decide_row-decision r here n = rw (here, n) refl

  pub count-decide_rows :
      (e : Decision) (v : Approver) (rows : List Approver)
      → Unique same_voter rows
      → find_approver user rows ≡ some v
      → v.decision ≡ none
      → count_decided e (decide_rows now user d comment rows)
        ≡ add_if (is_decision e (some d)) (count_decided e rows)
  count-decide_rows e v [] u f n = absurd (cc)
  count-decide_rows e v (r ∷ rows) u f n = elim (Bool-cases (is_approver user r)) [
    | inl here ↦
        let same : r ≡ v = some_inj (rw here at f) in
        let idle : r.decision ≡ none = ap (λ x. x.decision) same ∙ n in
        let gone : any (is_approver user) rows ≡ false =
          rw (sym ((==_iff r.approver_user_id user).0 here)) u.0 in
        ground (
          arith,
          count-absent e rows gone,
          decide_row-decision r here idle,
          unvoted e r.decision idle,
        )
    | inr there ↦ ground (arith, count-decide_rows e v rows)
  ]
