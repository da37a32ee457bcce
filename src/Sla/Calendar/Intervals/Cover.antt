-- ===== src/Sla/Calendar/Intervals/Cover.antt =====
-- `_merge_intervals`: its result covers the same instants, in disjoint intervals.
use mathlib.Core.List.{reverse-cons, append_assoc}
use helpdesk_agent.Prelude.{
  ℕ, ◌≤◌, ◌<◌, ◌≡◌, refl, ◌∙◌, Bool, false, List, [], ◌∷◌, ◌++◌, reverse, ◌&&◌, ◌||◌, ltb, leb,
  if◌then◌else◌, max, any, arith, Bool-cases, inl, inr,
}
use helpdesk_agent.Sla.Calendar.Intervals.{
  Interval, nonempty, tuple_le, insert_interval, sort_intervals, merge_loop, merge_intervals,
}

abbrev pub within : ℕ → Interval → Bool
within t (s, e) = leb s t && ltb t e

-- The instant lies in one of the intervals.
abbrev pub covers : ℕ → List Interval → Bool
covers t = any (within t)

-- Every interval has an inside, and ends before the next one opens.
abbrev pub Separated : List Interval → Type 0
Separated [] = Unit
Separated (i ∷ []) = i.0 < i.1
Separated (i ∷ j ∷ rest) = (i.0 < i.1) × (i.1 < j.0) × Separated (j ∷ rest)

-- The intervals have an inside and open in ascending order.
abbrev Ascending : ℕ → List Interval → Type 0
Ascending low [] = Unit
Ascending low (i ∷ rest) = (low ≤ i.0) × (i.0 < i.1) × Ascending i.0 rest

covers-nonempty : (t : ℕ) (l : List Interval) → covers t (nonempty l) ≡ covers t l
covers-nonempty t [] = refl
covers-nonempty t ((s, e) ∷ rest) = ground (arith, covers-nonempty t rest)

covers-insert :
    (t : ℕ) (i : Interval) (l : List Interval)
    → covers t (insert_interval i l) ≡ (within t i || covers t l)
covers-insert t i [] = refl
covers-insert t (s, e) ((s', e') ∷ rest) = ground (arith, covers-insert t (s, e) rest)

covers-sort : (t : ℕ) (l : List Interval) → covers t (sort_intervals l) ≡ covers t l
covers-sort t [] = refl
covers-sort t (i ∷ rest) =
    ground (arith, covers-insert t i (sort_intervals rest), covers-sort t rest)

Ascending-weaken :
    (low low' : ℕ) (l : List Interval) → low ≤ low' → Ascending low' l → Ascending low l
Ascending-weaken low low' [] h a = tt
Ascending-weaken low low' (i ∷ rest) h a = (omega arith, a.1, a.2)

insert-Ascending :
    (low : ℕ) (i : Interval) (l : List Interval)
    → low ≤ i.0
    → i.0 < i.1
    → Ascending low l
    → Ascending low (insert_interval i l)
insert-Ascending low i [] h n a = (h, n, tt)
insert-Ascending low (s, e) ((s', e') ∷ rest) h n a = elim (Bool-cases (tuple_le (s, e) (s', e'))) [
  | inl before ↦ rw before (h, n, (ground arith, a.1, a.2))
  | inr after ↦ rw after (a.0, a.1, insert-Ascending s' (s, e) rest (ground arith) n a.2)
]

sort-Ascending : (l : List Interval) → Ascending 0 (sort_intervals (nonempty l))
sort-Ascending [] = tt
sort-Ascending ((s, e) ∷ rest) = elim (Bool-cases (ltb s e)) [
  | inl inside ↦ rw inside (
      insert-Ascending 0 (s, e) (sort_intervals (nonempty rest)) (omega arith) (ground arith)
        (sort-Ascending rest))
  | inr hollow ↦ rw hollow (sort-Ascending rest)
]

-- The loop without its accumulator: `i` is the interval that the next one is compared with.
merge_from : Interval → List Interval → List Interval
merge_from i [] = i ∷ []
merge_from (s, e) ((s', e') ∷ rest) =
    let apart = (s, e) ∷ merge_from (s', e') rest in
    let joined = merge_from (s, max e e') rest in if ltb e s' then apart else joined

merge_loop-merge_from :
    (i : Interval) (merged l : List Interval)
    → merge_loop (i ∷ merged) l ≡ reverse merged ++ merge_from i l
unfolding merge_loop merge_from
merge_loop-merge_from i merged [] = reverse-cons i merged
merge_loop-merge_from (s, e) merged ((s', e') ∷ rest) = elim (Bool-cases (ltb e s')) [
  | inl apart ↦ rw apart (
      merge_loop-merge_from (s', e') ((s, e) ∷ merged) rest
      ∙ rw (reverse-cons (s, e) merged) (append_assoc (reverse merged) ((s, e) ∷ []) _))
  | inr joined ↦ rw joined (merge_loop-merge_from (s, max e e') merged rest)
]

joined_covers :
    (t s e s' e' : ℕ) (others : Bool)
    → s < e
    → s ≤ s'
    → s' < e'
    → ltb e s' ≡ false
    → (within t (s, max e e') || others) ≡ (within t (s, e) || (within t (s', e') || others))
joined_covers t s e s' e' others n h n' joined = ground arith

covers-merge_from :
    (t s e : ℕ) (l : List Interval)
    → s < e
    → Ascending s l
    → covers t (merge_from (s, e) l) ≡ covers t ((s, e) ∷ l)
unfolding merge_from
covers-merge_from t s e [] n a = refl
covers-merge_from t s e ((s', e') ∷ rest) n a = elim (Bool-cases (ltb e s')) [
  | inl apart ↦ rw apart (ground (arith, covers-merge_from t s' e' rest a.1 a.2))
  | inr joined ↦ rw joined (
      covers-merge_from t s (max e e') rest (omega arith) (Ascending-weaken s s' rest a.0 a.2)
      ∙ joined_covers t s e s' e' (covers t rest) n a.0 a.1 joined)
]

cons-merge_from :
    (p : Interval) (s e : ℕ) (l : List Interval)
    → p.0 < p.1
    → p.1 < s
    → Separated (merge_from (s, e) l)
    → Separated (p ∷ merge_from (s, e) l)
unfolding merge_from
cons-merge_from p s e [] n h k = (n, h, k)
cons-merge_from p s e ((s', e') ∷ rest) n h k = elim (Bool-cases (ltb e s')) [
  | inl apart ↦ rw apart (n, h, rw apart at k)
  | inr joined ↦ rw joined (cons-merge_from p s (max e e') rest n h (rw joined at k))
]

merge_from-Separated :
    (s e : ℕ) (l : List Interval) → s < e → Ascending s l → Separated (merge_from (s, e) l)
unfolding merge_from
merge_from-Separated s e [] n a = n
merge_from-Separated s e ((s', e') ∷ rest) n a = elim (Bool-cases (ltb e s')) [
  | inl apart ↦
      rw apart (
        cons-merge_from (s, e) s' e' rest n (ground arith)
          (merge_from-Separated s' e' rest a.1 a.2))
  | inr joined ↦
      rw joined
        (merge_from-Separated s (max e e') rest (omega arith) (Ascending-weaken s s' rest a.0 a.2))
]

-- The two cases of the loop's start: nothing to merge, or a first interval.
merge_loop-covers :
    (t : ℕ) (l : List Interval) → Ascending 0 l → covers t (merge_loop [] l) ≡ covers t l
merge_loop-covers t [] a = unfold merge_loop in refl
merge_loop-covers t ((s, e) ∷ rest) a =
    unfold merge_loop in
    rw (merge_loop-merge_from (s, e) [] rest) (covers-merge_from t s e rest a.1 a.2)

merge_loop-Separated : (l : List Interval) → Ascending 0 l → Separated (merge_loop [] l)
merge_loop-Separated [] a = unfold merge_loop in tt
merge_loop-Separated ((s, e) ∷ rest) a =
    unfold merge_loop in
    rw (merge_loop-merge_from (s, e) [] rest) (merge_from-Separated s e rest a.1 a.2)

-- Merging any intervals gives intervals that cover exactly the same instants, each with an inside
-- and each ending before the next one opens.
pub merge_intervals_lem :
    (l : List Interval)
    → ((t : ℕ) → covers t (merge_intervals l) ≡ covers t l) × Separated (merge_intervals l)
unfolding merge_intervals
merge_intervals_lem l = (
  λ t.
      merge_loop-covers t (sort_intervals (nonempty l)) (sort-Ascending l)
      ∙ (covers-sort t (nonempty l) ∙ covers-nonempty t l),
  merge_loop-Separated (sort_intervals (nonempty l)) (sort-Ascending l),
)
