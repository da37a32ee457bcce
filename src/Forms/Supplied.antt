-- ===== src/Forms/Supplied.antt =====
-- Which values are supplied for a form.
use package.text.Mathlib.Text.{◌==◌ as text_eq}
use package.text.Mathlib.TextEquality.{eq_iff}
use helpdesk_agent.Prelude.{
  ◌≡◌, sym, String, true, false, not, List, [], ◌∷◌, any, All, Exists, Bool-cases, inl, inr,
  both_true, not-true,
}
use helpdesk_agent.Rules.Evaluate.{Values}
use helpdesk_agent.Forms.Fields.{FormFieldRecord}
use helpdesk_agent.Forms.Validate.{has_code, supplies, all_once, all_known}

-- No two supplied values are of one code.
abbrev pub OnceEach : Values → Type 0
OnceEach [] = Unit
OnceEach (item ∷ rest) = All (λ other. item.0 ≡ other.0 → ⊥) rest × OnceEach rest

unsupplied :
    (code : String) (rest : Values)
    → any (supplies code) rest ≡ false
    → All (λ other. code ≡ other.0 → ⊥) rest
unsupplied code [] h = tt
unsupplied code (other ∷ rest) h = elim (Bool-cases (text_eq other.0 code)) [
  | inl same ↦ let lost : true ≡ false = rw same at h in absurd (cc)
  | inr apart ↦ (λ e. cc ((eq_iff other.0 code).1 (sym e)), unsupplied code rest (rw apart at h))
]

pub all_once-OnceEach : (supplied : Values) → all_once supplied ≡ true → OnceEach supplied
all_once-OnceEach [] h = tt
all_once-OnceEach (item ∷ rest) h =
    let (once, others) = both_true (not (any (supplies item.0) rest)) (all_once rest) h in
    (
      unsupplied item.0 rest (not-true (any (supplies item.0) rest) once),
      all_once-OnceEach rest others,
    )

known-Exists :
    (code : String) (records : List FormFieldRecord)
    → any (has_code code) records ≡ true
    → Exists (λ r. r.field_code ≡ code) records
known-Exists code [] h = cc
known-Exists code (r ∷ rest) h = elim (Bool-cases (text_eq r.field_code code)) [
  | inl same ↦ inl ((eq_iff r.field_code code).0 same)
  | inr apart ↦ inr (known-Exists code rest (rw apart at h))
]

pub all_known-All :
    (records : List FormFieldRecord) (supplied : Values)
    → all_known records supplied ≡ true
    → All (λ item. Exists (λ r. r.field_code ≡ item.0) records) supplied
all_known-All records [] h = tt
all_known-All records (item ∷ rest) h =
    let (known, others) = both_true (any (has_code item.0) records) (all_known records rest) h in
    (known-Exists item.0 records known, all_known-All records rest others)
