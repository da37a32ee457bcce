-- ===== src/Forms/Normal.antt =====
-- What `_normalize` returns is what the field's type stores.
use mathlib.Core.Path.{subst}
use package.text.Mathlib.Text.{◌==◌ as text_eq}
use package.text.Mathlib.TextEquality.{eq_iff}
use helpdesk_agent.Prelude.{
  ◌≡◌, refl, String, true, false, not, ◌&&◌, Option, none, some, List, [], ◌∷◌, ltb, any, Exists,
  Bool-cases, inl, inr, arith, if◌then◌else◌, both_true, not-true,
}
use helpdesk_agent.Rules.Value.{Value, boolean, str, arr, obj, Items, nil, cons, member}
use helpdesk_agent.Forms.Fields.{
  FormFieldRecord, Library, text_of, normalize_text, normalize_number, normalize_boolean,
  normalize_choice, normalize_choices, normalize_object, is_reference, is_option, all_options,
  has_repeats, normalize,
}
use helpdesk_agent.Forms.Validate.{options_of}
use helpdesk_agent.Forms.Typed.{
  AreTexts, NoRepeats, references, IsNormal, text, long_text, decimal, truth, true_text, false_text,
  date, instant, reference, choice, choices, object,
}
use helpdesk_agent.Forms.Firsts.{IsOption, options_of-IsOption}

pub some_value {ℓ} : {A : Type ℓ} {x y : A} → ◌≡◌ {A = Option A} (some x) (some y) → x ≡ y
some_value e = cc

any-Exists :
    (type : String) (types : List String)
    → any (λ t. text_eq t type) types ≡ true
    → Exists (λ t. t ≡ type) types
any-Exists type [] h = cc
any-Exists type (t ∷ rest) h = elim (Bool-cases (text_eq t type)) [
  | inl same ↦ inl ((eq_iff t type).0 same)
  | inr other ↦ inr (any-Exists type rest (rw other at h))
]

has_repeats-NoRepeats : (items : Items) → has_repeats items ≡ false → NoRepeats items
has_repeats-NoRepeats nil h = tt
has_repeats-NoRepeats (cons v rest) h = elim (Bool-cases (member v rest)) [
  | inl again ↦ let lost : true ≡ false = rw again at h in absurd (cc)
  | inr once ↦ (once, has_repeats-NoRepeats rest (rw once at h))
]

module _ (lib : Library) (records : List FormFieldRecord) (code type : String) where
  abbrev Normal : Value → Value → Type 0
  Normal = IsNormal lib (IsOption records code) type

  abbrev options : List String
  options = options_of code records

  all_options-AreTexts :
      (items : Items) → all_options options items ≡ true → AreTexts (IsOption records code) items
  all_options-AreTexts nil h = tt
  all_options-AreTexts (cons (str s) rest) h =
      let (own, others) = both_true (is_option options s) (all_options options rest) h in
      (s, refl, options_of-IsOption code s records own, all_options-AreTexts rest others)
  all_options-AreTexts (cons _ rest) h = absurd (cc h)

  text_of-some :
      (o : Option String) (v : Value)
      → text_of o ≡ some v
      → (s : String) × (o ≡ some s) × (str s ≡ v)
  text_of-some none v h = cc
  text_of-some (some s) v h = (s, refl, some_value h)

  stored :
      (given v : Value) (o : Option String)
      → ((s : String) → o ≡ some s → Normal given (str s))
      → text_of o ≡ some v
      → Normal given v
  stored given v o make h =
      let (s, found, same) = text_of-some o v h in subst (Normal given) same (make s found)

  number-Normal :
      (given v : Value) → type ≡ "NUMBER" → normalize_number lib given ≡ some v → Normal given v
  number-Normal (boolean b) v t h = cc
  number-Normal given v t h = stored given v (lib.decimal_text given) (λ s. decimal t (λ b e. cc)) h

  boolean-Normal :
      (given v : Value) → type ≡ "BOOLEAN" → normalize_boolean lib given ≡ some v → Normal given v
  boolean-Normal (boolean b) v t h = subst (Normal (boolean b)) (some_value h) (truth t)
  boolean-Normal (str s) v t h = elim (Bool-cases (text_eq (lib.lower s) "true")) [
    | inl holds ↦
        subst (Normal (str s)) (some_value (rw holds at h))
          (true_text t ((eq_iff (lib.lower s) "true").0 holds))
    | inr other ↦ elim (Bool-cases (text_eq (lib.lower s) "false")) [
      | inl fails ↦
          subst (Normal (str s)) (some_value (rw (other, fails) at h))
            (false_text t ((eq_iff (lib.lower s) "false").0 fails))
      | inr neither ↦ let lost : none ≡ some v = rw (other, neither) at h in cc
    ]
  ]
  boolean-Normal _ v t h = absurd (cc h)

  choice-Normal :
      (given v : Value)
      → type ≡ "SINGLE_SELECT"
      → normalize_choice options given ≡ some v
      → Normal given v
  choice-Normal (str s) v t h = elim (Bool-cases (is_option options s)) [
    | inl own ↦
        subst (Normal (str s)) (some_value (rw own at h))
          (choice t (options_of-IsOption code s records own))
    | inr foreign ↦ let lost : none ≡ some v = rw foreign at h in cc
  ]
  choice-Normal _ v t h = absurd (cc h)

  choices-Normal :
      (given v : Value)
      → type ≡ "MULTI_SELECT"
      → normalize_choices lib options given ≡ some v
      → Normal given v
  choices-Normal (arr items) v t h =
      elim (Bool-cases (all_options options items && not (has_repeats items))) [
        | inl fine ↦
            let (own, once) =
              both_true (all_options options items) (not (has_repeats items)) fine in
            subst (Normal (arr items)) (some_value (rw fine at h)) (
              choices t (all_options-AreTexts items own)
                (has_repeats-NoRepeats items (not-true (has_repeats items) once)))
        | inr wrong ↦ let lost : none ≡ some v = rw wrong at h in cc
      ]
  choices-Normal _ v t h = absurd (cc h)

  object-Normal :
      (given v : Value)
      → type ≡ "JSON_OBJECT"
      → normalize_object lib given ≡ some v
      → Normal given v
  object-Normal (obj fs) v t h = elim (Bool-cases (ltb 20_000 (lib.json_length (obj fs)))) [
    | inl large ↦ let lost : none ≡ some v = rw large at h in cc
    | inr small ↦ subst (Normal (obj fs)) (some_value (rw small at h)) (object t (ground arith))
  ]
  object-Normal _ v t h = absurd (cc h)

  text-Normal :
      (f : String → String) (given v : Value)
      → ((s : String) → Normal (str s) (str (f s)))
      → normalize_text f given ≡ some v
      → Normal given v
  text-Normal f (str s) v make h = subst (Normal (str s)) (some_value h) (make s)
  text-Normal f _ v make h = absurd (cc h)

  -- One test of the field's type after another.
  typed-Normal :
      (name : String) (given v : Value) (here later : Option Value)
      → (type ≡ name → here ≡ some v → Normal given v)
      → (later ≡ some v → Normal given v)
      → (if text_eq type name then here else later) ≡ some v
      → Normal given v
  typed-Normal name given v here later is_here is_later h = elim (Bool-cases (text_eq type name)) [
    | inl same ↦ is_here ((eq_iff type name).0 same) (rw same at h)
    | inr other ↦ is_later (rw other at h)
  ]

  reference-Normal :
      (given v : Value) (later : Option Value)
      → (later ≡ some v → Normal given v)
      → (if is_reference type then text_of (lib.uuid_text given) else later) ≡ some v
      → Normal given v
  reference-Normal given v later is_later h = elim (Bool-cases (is_reference type)) [
    | inl refers ↦
        stored given v (lib.uuid_text given) (λ s. reference (any-Exists type references refers))
          (rw refers at h)
    | inr other ↦ is_later (rw other at h)
  ]

  pub normalize-IsNormal :
      (given v : Value)
      → normalize lib type (options_of code records) given ≡ some v
      → Normal given v
  unfolding normalize
  normalize-IsNormal given v h =
      typed-Normal "TEXT" given v _ _ (λ t. text-Normal lib.collapse given v (λ s. text t))
        (typed-Normal "LONG_TEXT" given v _ _
          (λ t. text-Normal lib.strip given v (λ s. long_text t))
          (typed-Normal "NUMBER" given v _ _ (number-Normal given v) (
            typed-Normal "BOOLEAN" given v _ _ (boolean-Normal given v) (
              typed-Normal "DATE" given v _ _
                (λ t. stored given v (lib.date_text given) (λ s. date t))
                (typed-Normal "TIMESTAMP" given v _ _
                  (λ t. stored given v (lib.timestamp_text given) (λ s. instant t))
                  (reference-Normal given v _ (
                    typed-Normal "SINGLE_SELECT" given v _ _ (choice-Normal given v) (
                      typed-Normal "MULTI_SELECT" given v _ _ (choices-Normal given v) (
                        typed-Normal "JSON_OBJECT" given v _ _ (object-Normal given v)
                          (λ lost. cc))))))))))
        h
