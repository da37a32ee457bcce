-- ===== src/Desk/Rows.antt =====
-- Updates of a ticket's row: the version that they return, and that the row is still found.
use helpdesk_agent.Prelude.{
  ℕ, ◌+◌, ◌≡◌, refl, sym, ap, ◌∙◌, Bool, true, some, List, [], ◌∷◌, Bool-cases, inl, inr,
}
use helpdesk_agent.Desk.Store.{TicketRow}
use helpdesk_agent.Desk.Tickets.{find_row, update_rows, updated, returned_version}

-- The version that an update of a row of a given version returns is the next one.
module _ (p : TicketRow → Bool) (version : ℕ)
    (versioned : (r : TicketRow) → p r ≡ true → r.row_version ≡ version) where
  pub next_version :
      (rows : List TicketRow) (n : ℕ)
      → returned_version (find_row p rows) ≡ some n
      → n ≡ version + 1
  next_version [] n h = cc
  next_version (r ∷ rows) n h = elim (Bool-cases (p r)) [
    | inl hit ↦ sym (some_inj (rw hit at h)) ∙ ap (λ k. k + 1) (versioned r hit)
    | inr miss ↦ next_version rows n (rw miss at h)
  ]
    where
      some_inj : some (r.row_version + 1) ≡ some n → r.row_version + 1 ≡ n
      some_inj e = cc

-- After an update that leaves every row to be seen that was seen, there is one still.
module _ (seen p : TicketRow → Bool) (f : TicketRow → TicketRow)
    (keeps : (r : TicketRow) → seen r ≡ true → seen (updated f r) ≡ true) where
  pub still_found :
      (rows : List TicketRow) (r : TicketRow)
      → find_row seen rows ≡ some r
      → (r' : TicketRow) × (find_row seen (update_rows p f rows) ≡ some r')
  still_found [] r h = cc
  still_found (x ∷ rows) r h = elim (Bool-cases (seen x)) [
    | inl found ↦ elim (Bool-cases (p x)) [
      | inl hit ↦ (updated f x, rw (hit, keeps x found) refl)
      | inr miss ↦ (x, rw (miss, found) refl)
    ]
    | inr hidden ↦
        let (r', later) = still_found rows r (rw hidden at h) in
        elim (Bool-cases (p x)) [
          | inl hit ↦ elim (Bool-cases (seen (updated f x))) [
            | inl shown ↦ (updated f x, rw (hit, shown) refl)
            | inr still_hidden ↦ (r', rw (hit, still_hidden) later)
          ]
          | inr miss ↦ (r', rw (miss, hidden) later)
        ]
  ]
