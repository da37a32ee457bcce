-- ===== src/Forms/Within.antt =====
-- Which values lie within the bounds of a field.
use Prim.Native.String.{count}
use helpdesk_agent.Prelude.{
  ℕ, ◌≤◌, ◌≡◌, refl, ap, String, Bool, true, false, not, ◌&&◌, ◌||◌, Option, some, ltb, arith,
  both_true, not-true,
}
use package.text.Mathlib.Text.{◌==◌ as text_eq}
use package.text.Mathlib.TextEquality.{eq_iff}
use helpdesk_agent.Prelude.Int.{pos}
use helpdesk_agent.Rules.Value.{Value, null, number, str, arr}
use helpdesk_agent.Forms.Conditions.{count_items}
use helpdesk_agent.Forms.Fields.{
  Library, length_of, items_of, int_bound, below_int, above_int, breaks, bound, breaks_number,
  within_bounds,
}

-- How long a text or a list is, and how many items a list has.
abbrev pub IsSize : Value → ℕ → Type 0
IsSize (str s) n = count s ≡ n
IsSize (arr items) n = count_items items ≡ n
IsSize _ n = ⊥

abbrev pub IsCount : Value → ℕ → Type 0
IsCount (arr items) n = count_items items ≡ n
IsCount _ n = ⊥

-- A value keeps those bounds of a field's validation that are natural numbers, and a number's text
-- those that the library compares it with.
pub record IsWithin (lib : Library) (type : String) (validation v : Value) : Type 0 where
  pub long_enough :
      (n m : ℕ) → IsSize v n → bound "minimum_length" validation ≡ some (number (pos m)) → m ≤ n
  pub short_enough :
      (n m : ℕ) → IsSize v n → bound "maximum_length" validation ≡ some (number (pos m)) → n ≤ m
  pub enough_items :
      (n m : ℕ) → IsCount v n → bound "minimum_items" validation ≡ some (number (pos m)) → m ≤ n
  pub few_items :
      (n m : ℕ) → IsCount v n → bound "maximum_items" validation ≡ some (number (pos m)) → n ≤ m
  pub not_below :
      (s : String) (limit : Value)
      → type ≡ "NUMBER"
      → v ≡ str s
      → bound "minimum" validation ≡ some limit
      → (limit ≡ null → ⊥)
      → lib.is_below s limit ≡ false
  pub not_above :
      (s : String) (limit : Value)
      → type ≡ "NUMBER"
      → v ≡ str s
      → bound "maximum" validation ≡ some limit
      → (limit ≡ null → ⊥)
      → lib.is_above s limit ≡ false

size-length : (v : Value) (n : ℕ) → IsSize v n → length_of v ≡ some n
size-length (str s) n h = ap some h
size-length (arr items) n h = ap some h
size-length _ n h = absurd h

count-items : (v : Value) (n : ℕ) → IsCount v n → items_of v ≡ some n
count-items (arr items) n h = ap some h
count-items _ n h = absurd h

keeps_minimum :
    (size : Option ℕ) (limit : Option Value) (n m : ℕ)
    → not (breaks below_int size (int_bound limit)) ≡ true
    → size ≡ some n
    → limit ≡ some (number (pos m))
    → m ≤ n
keeps_minimum size limit n m h e q =
    let fine : ltb n m ≡ false = not-true (ltb n m) (rw (e, q) at h) in ground arith

keeps_maximum :
    (size : Option ℕ) (limit : Option Value) (n m : ℕ)
    → not (breaks above_int size (int_bound limit)) ≡ true
    → size ≡ some n
    → limit ≡ some (number (pos m))
    → n ≤ m
keeps_maximum size limit n m h e q =
    let fine : ltb m n ≡ false = not-true (ltb m n) (rw (e, q) at h) in ground arith

keeps_number :
    (test : String → Value → Bool) (s : String) (limit : Value)
    → not (breaks_number test (str s) (some limit)) ≡ true
    → (limit ≡ null → ⊥)
    → test s limit ≡ false
keeps_number test s null h k = absurd (k refl)
keeps_number test s limit h k = not-true (test s limit) h

or_true : (b c : Bool) → (not b || c) ≡ true → b ≡ true → c ≡ true
or_true true c h e = h
or_true false c h e = cc

-- The tests of a number's bounds.
module _ (lib : Library) (type : String) (validation v : Value)
    (h : (not (text_eq type "NUMBER")
        || (not (breaks_number lib.is_below v (bound "minimum" validation))
            && not (breaks_number lib.is_above v (bound "maximum" validation))))
      ≡ true) where
  numbers :
      type ≡ "NUMBER"
      → (not (breaks_number lib.is_below v (bound "minimum" validation)) ≡ true)
        × (not (breaks_number lib.is_above v (bound "maximum" validation)) ≡ true)
  numbers t =
      both_true (not (breaks_number lib.is_below v (bound "minimum" validation)))
        (not (breaks_number lib.is_above v (bound "maximum" validation)))
        (or_true (text_eq type "NUMBER") _ h ((eq_iff type "NUMBER").1 t))

pub within_bounds-IsWithin :
    (lib : Library) (type : String) (validation v : Value)
    → within_bounds lib type validation v ≡ true
    → IsWithin lib type validation v
unfolding within_bounds
within_bounds-IsWithin lib type validation v h =
    let (long, h₁) = both_true _ _ h in
    let (short, h₂) = both_true _ _ h₁ in
    let (enough, h₃) = both_true _ _ h₂ in
    let (few, h₄) = both_true _ _ h₃ in
    record {
      long_enough = λ n m size. keeps_minimum _ _ n m long (size-length v n size);
      short_enough = λ n m size. keeps_maximum _ _ n m short (size-length v n size);
      enough_items = λ n m size. keeps_minimum _ _ n m enough (count-items v n size);
      few_items = λ n m size. keeps_maximum _ _ n m few (count-items v n size);
      not_below = λ s limit t same found.
          keeps_number lib.is_below s limit
            (rw (same, found) at (numbers lib type validation v h₄ t).0);
      not_above = λ s limit t same found.
          keeps_number lib.is_above s limit
            (rw (same, found) at (numbers lib type validation v h₄ t).1);
    }
