-- ===== src/Desk/Versions.antt =====
-- The version of a ticket that has been updated, in a table where tenant and key are unique.
use package.text.Mathlib.TextEquality.{eq_iff}
use package.text.Mathlib.Text.{◌==◌ as text_eq}
use helpdesk_agent.Prelude.{
  ℕ, ◌+◌, ◌≡◌, refl, sym, ap, ◌∙◌, String, Bool, true, false, ◌&&◌, Option, some, List, [], ◌∷◌,
  ◌==◌, any, Unique, if◌then◌else◌, Bool-cases, ◌⊎◌, inl, inr, arith,
}
use helpdesk_agent.Desk.Store.{TicketRow}
use helpdesk_agent.Desk.Tickets.{find_row, update_rows, updated}

-- `UNIQUE (tenant_id, ticket_key)`
abbrev pub same_key : TicketRow → TicketRow → Bool
same_key r q = r.tenant_id == q.tenant_id && text_eq r.ticket_key q.ticket_key

abbrev pub has_key : ℕ → String → TicketRow → Bool
has_key tenant_id key r = r.tenant_id == tenant_id && text_eq r.ticket_key key

has_key-same_key :
    (tenant_id : ℕ) (key : String) (r q : TicketRow)
    → has_key tenant_id key r ≡ true
    → has_key tenant_id key q ≡ true
    → same_key r q ≡ true
has_key-same_key tenant_id key r q h k =
    ground
      (arith, eq_iff r.ticket_key key, eq_iff q.ticket_key key, eq_iff r.ticket_key q.ticket_key)

module _ (tenant_id : ℕ) (key : String) (p : TicketRow → Bool) (f : TicketRow → TicketRow)
    (keeps : (r : TicketRow) → has_key tenant_id key (updated f r) ≡ has_key tenant_id key r) where
  abbrev keyed : TicketRow → Bool
  keyed = has_key tenant_id key

  -- What finds only rows with the key.
  abbrev pub OfKey : (TicketRow → Bool) → Type 0
  OfKey seen = (r : TicketRow) → seen r ≡ true → keyed r ≡ true

  found-keyed :
      (seen : TicketRow → Bool)
      → OfKey seen
      → (rows : List TicketRow) (r : TicketRow) → find_row seen rows ≡ some r
      → any keyed rows ≡ true
  found-keyed seen of [] r h = cc
  found-keyed seen of (x ∷ rows) r h = elim (Bool-cases (seen x)) [
    | inl hit ↦ rw (of x hit) refl
    | inr miss ↦ let later = found-keyed seen of rows r (rw miss at h) in ground arith
  ]

  any-update_rows : (rows : List TicketRow) → any keyed (update_rows p f rows) ≡ any keyed rows
  any-update_rows [] = refl
  any-update_rows (x ∷ rows) = elim (Bool-cases (p x)) [
    | inl hit ↦ rw (hit, keeps x, any-update_rows rows) refl
    | inr miss ↦ rw (miss, any-update_rows rows) refl
  ]

  -- The rows that are not the first one with a key do not have it.
  alone :
      (x : TicketRow) (rows : List TicketRow)
      → keyed x ≡ true
      → any (same_key x) rows ≡ false
      → any keyed rows ≡ false
  alone x [] h k = refl
  alone x (y ∷ rows) h k = elim (Bool-cases (keyed y)) [
    | inl also ↦ let lost : true ≡ false = rw (has_key-same_key tenant_id key x y h also) at k in cc
    | inr other ↦ rw (other, alone x rows h (ground arith)) refl
  ]

  none_left :
      (after : TicketRow → Bool)
      → OfKey after
      → (rows : List TicketRow) (q : TicketRow) → any keyed rows ≡ false
      → find_row after (update_rows p f rows) ≡ some q
      → ⊥
  none_left after of rows q h k =
      let found = found-keyed after of (update_rows p f rows) q k in
      let lost : true ≡ false = sym found ∙ (any-update_rows rows ∙ h) in cc

  head_or_rest :
      (y q : TicketRow) (seen : Bool) (rest : Option TicketRow)
      → (if seen then some y else rest) ≡ some q
      → ((seen ≡ true) × (y ≡ q)) ⊎ ((seen ≡ false) × (rest ≡ some q))
  head_or_rest y q true rest h = inl (refl, cc)
  head_or_rest y q false rest h = inr (refl, h)

  module _ (before after : TicketRow → Bool) (of : OfKey before) (of' : OfKey after) where
    -- The row with the key stands at the head.
    head_version :
        (x q : TicketRow) (rows : List TicketRow)
        → keyed x ≡ true
        → any (same_key x) rows ≡ false
        → find_row after (updated f x ∷ update_rows p f rows) ≡ some q
        → q.row_version ≡ x.row_version + 1
    head_version x q rows own apart k =
        elim (head_or_rest (updated f x) q (after (updated f x))
          (find_row after (update_rows p f rows)) k) [
            | inl (_, same) ↦ ap (λ y. y.row_version) (sym same)
            | inr (_, rest) ↦ absurd (none_left after of' rows q (alone x rows own apart) rest)
          ]

    -- A row before the one with the key is not found.
    not_head :
        (x y r q : TicketRow) (rows : List TicketRow)
        → keyed y ≡ keyed x
        → any (same_key x) rows ≡ false
        → find_row before rows ≡ some r
        → find_row after (y ∷ update_rows p f rows) ≡ some q
        → find_row after (update_rows p f rows) ≡ some q
    not_head x y r q rows kept apart h k =
        elim (head_or_rest y q (after y) (find_row after (update_rows p f rows)) k) [
          | inl (shown, _) ↦
              let none_else = alone x rows (sym kept ∙ of' y shown) apart in
              let lost : true ≡ false = sym (found-keyed before of rows r h) ∙ none_else in cc
          | inr (_, rest) ↦ rest
        ]

    pub updated_version :
        (rows : List TicketRow)
        → Unique same_key rows
        → (r q : TicketRow) → find_row before rows ≡ some r
        → p r ≡ true
        → find_row after (update_rows p f rows) ≡ some q
        → q.row_version ≡ r.row_version + 1
    updated_version [] unique r q h hit k = cc
    updated_version (x ∷ rows) (apart, unique) r q h hit k =
        elim (head_or_rest x r (before x) (find_row before rows) h) [
          | inl (seen, same) ↦
              let own : p x ≡ true = ap p same ∙ hit in
              head_version x q rows (of x seen) apart (rw own at k)
              ∙ ap (λ y. y.row_version + 1) same
          | inr (_, rest) ↦ elim (Bool-cases (p x)) [
            | inl own ↦
                updated_version rows unique r q rest hit
                  (not_head x (updated f x) r q rows (keeps x) apart rest (rw own at k))
            | inr other ↦
                updated_version rows unique r q rest hit
                  (not_head x x r q rows refl apart rest (rw other at k))
          ]
        ]
