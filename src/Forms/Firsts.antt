-- ===== src/Forms/Firsts.antt =====
-- Which fields a form has: the first record of each code, and the options of a code.
use mathlib.Core.Path.{subst}
use package.text.Mathlib.Text.{◌==◌ as text_eq}
use package.text.Mathlib.TextEquality.{eq_iff}
use helpdesk_agent.Prelude.{
  ◌≡◌, ◌⊎◌, refl, sym, ap, ◌∙◌, String, Bool, true, false, Option, none, some, List, [], ◌∷◌, any,
  All, All-map, Exists, Bool-cases, Option-cases, inl, inr, if◌then◌else◌,
}
use helpdesk_agent.Forms.Fields.{FormFieldRecord, is_option}
use helpdesk_agent.Forms.Validate.{first_records, options_of}

-- The first record of a code.
abbrev pub find_record : String → List FormFieldRecord → Option FormFieldRecord
find_record code [] = none
find_record code (r ∷ rest) = if text_eq r.field_code code then some r else find_record code rest

-- No two fields have one code.
abbrev pub Distinct : List FormFieldRecord → Type 0
Distinct [] = Unit
Distinct (f ∷ rest) = All (λ g. f.field_code ≡ g.field_code → ⊥) rest × Distinct rest

-- Every record's code is that of a field, and each field is the first record of its code.
pub record AreFields (records fields : List FormFieldRecord) : Type 0 where
  pub all_covered : All (λ r. Exists (λ f. f.field_code ≡ r.field_code) fields) records
  pub all_first : All (λ f. find_record f.field_code records ≡ some f) fields
  pub distinct : Distinct fields

abbrev was_seen : List String → String → Bool
was_seen seen code = any (λ c. text_eq c code) seen

abbrev Covered : List String → List FormFieldRecord → FormFieldRecord → Type 0
Covered seen fields r =
    (was_seen seen r.field_code ≡ true) ⊎ Exists (λ f. f.field_code ≡ r.field_code) fields

Covered-later :
    (seen : List String) (r : FormFieldRecord) (fields : List FormFieldRecord) (x : FormFieldRecord)
    → Covered (r.field_code ∷ seen) fields x
    → Covered seen (r ∷ fields) x
Covered-later seen r fields x (inr e) = inr (inr e)
Covered-later seen r fields x (inl h) = elim (Bool-cases (text_eq r.field_code x.field_code)) [
  | inl same ↦ inr (inl ((eq_iff r.field_code x.field_code).0 same))
  | inr apart ↦ inl (rw apart at h)
]

first_records-old :
    (seen : List String) (r : FormFieldRecord) (rest : List FormFieldRecord)
    → was_seen seen r.field_code ≡ true
    → first_records seen rest ≡ first_records seen (r ∷ rest)
first_records-old seen r rest old = rw old refl

first_records-new :
    (seen : List String) (r : FormFieldRecord) (rest : List FormFieldRecord)
    → was_seen seen r.field_code ≡ false
    → r ∷ first_records (r.field_code ∷ seen) rest ≡ first_records seen (r ∷ rest)
first_records-new seen r rest new = rw new refl

first_records-Covered :
    (seen : List String) (records : List FormFieldRecord)
    → All (Covered seen (first_records seen records)) records
first_records-Covered seen [] = tt
first_records-Covered seen (r ∷ rest) = elim (Bool-cases (was_seen seen r.field_code)) [
  | inl old ↦
      subst (λ fields. All (Covered seen fields) (r ∷ rest)) (first_records-old seen r rest old)
        (inl old, first_records-Covered seen rest)
  | inr new ↦
      subst (λ fields. All (Covered seen fields) (r ∷ rest)) (first_records-new seen r rest new)
        (
          inr (inl refl),
          All-map rest (Covered-later seen r (first_records (r.field_code ∷ seen) rest))
              (first_records-Covered (r.field_code ∷ seen) rest),
        )
]

-- A field was not seen before, and is the first of its code.
abbrev IsFirst : List String → List FormFieldRecord → FormFieldRecord → Type 0
IsFirst seen records f =
    (was_seen seen f.field_code ≡ false) × (find_record f.field_code records ≡ some f)

IsFirst-after_old :
    (seen : List String) (r : FormFieldRecord) (rest : List FormFieldRecord)
    → was_seen seen r.field_code ≡ true
    → (f : FormFieldRecord) → IsFirst seen rest f
    → IsFirst seen (r ∷ rest) f
IsFirst-after_old seen r rest old f (new, found) =
    elim (Bool-cases (text_eq r.field_code f.field_code)) [
      | inl same ↦
          let again : was_seen seen f.field_code ≡ true =
            ap (was_seen seen) (sym ((eq_iff r.field_code f.field_code).0 same)) ∙ old in
          absurd (cc)
      | inr apart ↦ (new, rw apart found)
    ]

IsFirst-after_new :
    (seen : List String) (r : FormFieldRecord) (rest : List FormFieldRecord) (f : FormFieldRecord)
    → IsFirst (r.field_code ∷ seen) rest f
    → IsFirst seen (r ∷ rest) f
IsFirst-after_new seen r rest f (new, found) =
    elim (Bool-cases (text_eq r.field_code f.field_code)) [
      | inl same ↦ let lost : true ≡ false = rw same at new in absurd (cc)
      | inr apart ↦ (rw apart at new, rw apart found)
    ]

first_records-IsFirst :
    (seen : List String) (records : List FormFieldRecord)
    → All (IsFirst seen records) (first_records seen records)
first_records-IsFirst seen [] = tt
first_records-IsFirst seen (r ∷ rest) = elim (Bool-cases (was_seen seen r.field_code)) [
  | inl old ↦ rw old (
      All-map (first_records seen rest) (IsFirst-after_old seen r rest old)
        (first_records-IsFirst seen rest))
  | inr new ↦ rw new (
    (new, rw ((eq_iff r.field_code r.field_code).1 refl) refl),
    All-map (first_records (r.field_code ∷ seen) rest) (IsFirst-after_new seen r rest)
        (first_records-IsFirst (r.field_code ∷ seen) rest),
  )
]

unseen-apart :
    (seen : List String) (r : FormFieldRecord) (rest : List FormFieldRecord) (f : FormFieldRecord)
    → IsFirst (r.field_code ∷ seen) rest f
    → r.field_code ≡ f.field_code
    → ⊥
unseen-apart seen r rest f (new, found) e =
    let lost : true ≡ false = rw ((eq_iff r.field_code f.field_code).1 e) at new in cc

first_records-Distinct :
    (seen : List String) (records : List FormFieldRecord) → Distinct (first_records seen records)
first_records-Distinct seen [] = tt
first_records-Distinct seen (r ∷ rest) = elim (Bool-cases (was_seen seen r.field_code)) [
  | inl old ↦ rw old (first_records-Distinct seen rest)
  | inr new ↦ rw new (
    All-map (first_records (r.field_code ∷ seen) rest) (unseen-apart seen r rest)
        (first_records-IsFirst (r.field_code ∷ seen) rest),
    first_records-Distinct (r.field_code ∷ seen) rest,
  )
]

pub first_records-AreFields :
    (records : List FormFieldRecord) → AreFields records (first_records [] records)
first_records-AreFields records = record {
  all_covered =
      All-map records (λ r covered. elim covered [ inl seen ↦ absurd (cc) | inr e ↦ e ])
        (first_records-Covered [] records);
  all_first =
      All-map (first_records [] records) (λ f first. first.1) (first_records-IsFirst [] records);
  distinct = first_records-Distinct [] records;
}

-- Some record of the code has the text as its option.
abbrev pub IsOption : List FormFieldRecord → String → String → Type 0
IsOption records code s = Exists (λ r. (r.field_code ≡ code) × (r.option_code ≡ some s)) records

pub options_of-IsOption :
    (code s : String) (records : List FormFieldRecord)
    → is_option (options_of code records) s ≡ true
    → IsOption records code s
options_of-IsOption code s [] h = cc
options_of-IsOption code s (r ∷ rest) h = elim (Bool-cases (text_eq r.field_code code)) [
  | inr other ↦ inr (options_of-IsOption code s rest (rw other at h))
  | inl own ↦ elim (Option-cases r.option_code) [
    | inl nothing ↦ inr (options_of-IsOption code s rest (rw (own, nothing) at h))
    | inr (o, found) ↦ elim (Bool-cases (text_eq o s)) [
      | inl same ↦ inl ((eq_iff r.field_code code).0 own, found ∙ ap some ((eq_iff o s).0 same))
      | inr apart ↦ inr (options_of-IsOption code s rest (rw (own, found, apart) at h))
    ]
  ]
]
