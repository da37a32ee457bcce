-- ===== src/Sla/Calendar/Consume.antt =====
-- The loop of `add_business_seconds` over one day's intervals against the seconds that
-- `business_seconds_between` counts in them.
use helpdesk_agent.Prelude.{
  ℕ, ◌+◌, ◌-◌, ◌*◌, ◌/◌, ◌≤◌, ◌<◌, ◌≡◌, refl, List, [], ◌∷◌, leb, max, All, arith, Bool-cases, inl,
  inr, leb→le, leb_false→lt, sym, ◌∙◌,
}
use helpdesk_agent.Sla.Calendar.Zones.{second}
use helpdesk_agent.Sla.Calendar.Intervals.{Interval}
use helpdesk_agent.Sla.Calendar.Intervals.Cover.{Separated}
use helpdesk_agent.Sla.Calendar.Arithmetic.{reached, left, consume, overlap, overlap_total}

-- Every interval opens at `low` or later.
abbrev pub OpenAfter : ℕ → List Interval → Type 0
OpenAfter low = All (λ i. low ≤ i.0)

-- Every interval is over at `high`.
abbrev pub CloseBefore : ℕ → List Interval → Type 0
CloseBefore high = All (λ i. i.1 ≤ high)

abbrev pub Proper : List Interval → Type 0
Proper = All (λ i. i.0 < i.1)

pub Separated-tail : (i : Interval) (l : List Interval) → Separated (i ∷ l) → Separated l
Separated-tail i [] h = tt
Separated-tail i (j ∷ l) h = h.2

pub Separated-head : (i : Interval) (l : List Interval) → Separated (i ∷ l) → i.0 < i.1
Separated-head i [] h = h
Separated-head i (j ∷ l) h = h.0

pub OpenAfter-weaken :
    (low low' : ℕ) (l : List Interval) → low ≤ low' → OpenAfter low' l → OpenAfter low l
OpenAfter-weaken low low' [] h a = tt
OpenAfter-weaken low low' (i ∷ l) h a = (omega arith, OpenAfter-weaken low low' l h a.1)

pub CloseBefore-weaken :
    (high high' : ℕ) (l : List Interval) → high ≤ high' → CloseBefore high l → CloseBefore high' l
CloseBefore-weaken high high' [] h a = tt
CloseBefore-weaken high high' (i ∷ l) h a = (omega arith, CloseBefore-weaken high high' l h a.1)

Separated-OpenAfter : (i : Interval) (l : List Interval) → Separated (i ∷ l) → OpenAfter i.1 l
Separated-OpenAfter i [] h = tt
Separated-OpenAfter i (j ∷ l) h = (
  omega arith,
  OpenAfter-weaken i.1 j.1 l (omega (arith, Separated-head j l h.2)) (Separated-OpenAfter j l h.2),
)

-- What opens at the upper end or later counts nothing.
pub overlap_total-OpenAfter :
    (lower upper : ℕ) (l : List Interval) → OpenAfter upper l → overlap_total lower upper l ≡ 0
overlap_total-OpenAfter lower upper [] h = refl
overlap_total-OpenAfter lower upper ((s, e) ∷ l) h =
    ground (arith, overlap_total-OpenAfter lower upper l h.1)

-- Two lower ends before every interval count alike.
pub overlap_total-low :
    (low low' upper : ℕ) (l : List Interval)
    → OpenAfter low l
    → OpenAfter low' l
    → overlap_total low upper l ≡ overlap_total low' upper l
overlap_total-low low low' upper [] h h' = refl
overlap_total-low low low' upper ((s, e) ∷ l) h h' =
    ground (arith, overlap_total-low low low' upper l h.1 h'.1)

-- One round of the loop: the interval is over, holds the rest of the seconds, or is used up.
data Round (current remaining : ℕ) (s e : ℕ) (l : List Interval) : Type 0 where
  over :
      e ≤ max current s
      → consume current remaining ((s, e) ∷ l) ≡ consume current remaining l
      → Round current remaining s e l
  enough :
      max current s + remaining * second ≤ e
      → consume current remaining ((s, e) ∷ l) ≡ reached (max current s + remaining * second)
      → Round current remaining s e l
  short :
      max current s < e
      → (e - max current s) / second < remaining
      → consume current remaining ((s, e) ∷ l)
        ≡ consume current (remaining - (e - max current s) / second) l
      → Round current remaining s e l

seconds_fit : (c e n : ℕ) → c < e → n ≤ (e - c) / second → c + n * second ≤ e
seconds_fit c e n h k = omega arith

Round-of : (current remaining s e : ℕ) (l : List Interval) → Round current remaining s e l
unfolding consume
Round-of current remaining s e l = elim (Bool-cases (leb e (max current s))) [
  | inl h ↦ over (leb→le e (max current s) h) (rw h)
  | inr h ↦ elim (Bool-cases (leb remaining ((e - max current s) / second))) [
    | inl k ↦
        enough
          (seconds_fit (max current s) e remaining (leb_false→lt e (max current s) h)
            (leb→le remaining ((e - max current s) / second) k))
          (rw (h, k))
    | inr k ↦
        short (leb_false→lt e (max current s) h)
          (leb_false→lt remaining ((e - max current s) / second) k) (rw (h, k))
  ]
]

reached_ne_left : {a b : ℕ} → reached a ≡ left b → ⊥
reached_ne_left h = cc

reached_inj : {a b : ℕ} → reached a ≡ reached b → a ≡ b
reached_inj h = cc

left_inj : {a b : ℕ} → left a ≡ left b → a ≡ b
left_inj h = cc

-- The loop stops after the point it started from, and inside an interval.
pub consume_low :
    (low current remaining r : ℕ) (l : List Interval)
    → 0 < remaining
    → OpenAfter low l
    → consume current remaining l ≡ reached r
    → (low < r) × (current < r)
consume_low low current remaining r [] p a h = unfold consume in absurd (cc)
consume_low low current remaining r ((s, e) ∷ l) p a h = elim (Round-of current remaining s e l) [
  | over _ step ↦ consume_low low current remaining r l p a.1 (sym step ∙ h)
  | enough fits step ↦ omega (arith, reached_inj (sym step ∙ h))
  | short _ k step ↦
      consume_low low current (remaining - (e - max current s) / second) r l (omega arith) a.1
        (sym step ∙ h)
]

-- The loop stops inside the day.
pub consume_high :
    (high current remaining r : ℕ) (l : List Interval)
    → CloseBefore high l
    → consume current remaining l ≡ reached r
    → r ≤ high
consume_high high current remaining r [] b h = unfold consume in absurd (cc)
consume_high high current remaining r ((s, e) ∷ l) b h = elim (Round-of current remaining s e l) [
  | over _ step ↦ consume_high high current remaining r l b.1 (sym step ∙ h)
  | enough fits step ↦ omega (arith, reached_inj (sym step ∙ h))
  | short _ k step ↦
      consume_high high current (remaining - (e - max current s) / second) r l b.1 (sym step ∙ h)
]

overlap_over : (lower upper s e : ℕ) → e ≤ max lower s → overlap lower upper (s, e) ≡ 0
overlap_over lower upper s e h = ground arith

overlap_whole :
    (lower upper s e : ℕ)
    → max lower s < e
    → e ≤ upper
    → overlap lower upper (s, e) ≡ (e - max lower s) / second
overlap_whole lower upper s e h k = ground arith

overlap_part :
    (lower upper s e n : ℕ)
    → 0 < n
    → upper ≡ max lower s + n * second
    → upper ≤ e
    → overlap lower upper (s, e) ≡ n
overlap_part lower upper s e n p h k = ground arith

-- When the loop reaches an instant, the intervals hold exactly the wanted seconds up to it.
pub consume-reached :
    (current remaining r : ℕ) (l : List Interval)
    → Separated l
    → 0 < remaining
    → consume current remaining l ≡ reached r
    → overlap_total current r l ≡ remaining
consume-reached current remaining r [] sep p h = unfold consume in absurd (cc)
consume-reached current remaining r ((s, e) ∷ l) sep p h = elim (Round-of current remaining s e l) [
  | over ends step ↦ omega (
    arith,
    overlap_over current r s e ends,
    consume-reached current remaining r l (Separated-tail (s, e) l sep) p (sym step ∙ h),
  )
  | enough fits step ↦
      let stop : max current s + remaining * second ≡ r = reached_inj (sym step ∙ h) in
      omega (
        arith,
        overlap_part current r s e remaining p (sym stop) (omega arith),
        overlap_total-OpenAfter current r l
            (OpenAfter-weaken r e l (omega arith) (Separated-OpenAfter (s, e) l sep)),
      )
  | short open_left k step ↦
      let rest : ℕ = remaining - (e - max current s) / second in
      let tail = Separated-tail (s, e) l sep in
      omega (
        arith,
        overlap_whole current r s e open_left (
            omega (
              arith,
              consume_low e current rest r l (omega arith) (Separated-OpenAfter (s, e) l sep)
                  (sym step ∙ h),
            )),
        consume-reached current rest r l tail (omega arith) (sym step ∙ h),
      )
]

-- When the loop uses the day up, what is left and what the day held make up the wanted seconds.
pub consume-left :
    (current remaining rest upper : ℕ) (l : List Interval)
    → CloseBefore upper l
    → 0 < remaining
    → consume current remaining l ≡ left rest
    → (0 < rest) × (rest + overlap_total current upper l ≡ remaining)
consume-left current remaining rest upper [] b p h = unfold consume in omega (arith, left_inj h)
consume-left current remaining rest upper ((s, e) ∷ l) b p h =
    elim (Round-of current remaining s e l) [
      | over ends step ↦ omega (
        arith,
        overlap_over current upper s e ends,
        consume-left current remaining rest upper l b.1 p (sym step ∙ h),
      )
      | enough fits step ↦ absurd (reached_ne_left (sym step ∙ h))
      | short open_left k step ↦
          let used : ℕ = (e - max current s) / second in
          omega (
            arith,
            overlap_whole current upper s e open_left b.0,
            consume-left current (remaining - used) rest upper l b.1 (omega arith) (sym step ∙ h),
          )
    ]
