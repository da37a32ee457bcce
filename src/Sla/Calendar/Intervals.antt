-- ===== src/Sla/Calendar/Intervals.antt =====
-- `_merge_intervals` of calendar.py: sorted, non-empty, disjoint intervals.
pub mod Cover
use helpdesk_agent.Prelude.{
  ℕ, Bool, List, [], ◌∷◌, reverse, ◌&&◌, ◌||◌, ltb, leb, ◌==◌, if◌then◌else◌, max,
}

-- Half-open: from the first instant up to the second.
abbrev pub Interval : Type 0
Interval = ℕ × ℕ

abbrev pub nonempty : List Interval → List Interval
nonempty [] = []
nonempty ((s, e) ∷ rest) = let kept = nonempty rest in if ltb s e then (s, e) ∷ kept else kept

-- Python's order of tuples.
abbrev pub tuple_le : Interval → Interval → Bool
tuple_le (s, e) (s', e') = ltb s s' || (s == s' && leb e e')

abbrev pub insert_interval : Interval → List Interval → List Interval
insert_interval i [] = i ∷ []
insert_interval i (j ∷ rest) = if tuple_le i j then i ∷ j ∷ rest else j ∷ insert_interval i rest

-- `sorted(...)`
abbrev pub sort_intervals : List Interval → List Interval
sort_intervals [] = []
sort_intervals (i ∷ rest) = insert_interval i (sort_intervals rest)

-- The loop; `merged` has its last interval first.
pub merge_loop : List Interval → List Interval → List Interval
merge_loop merged [] = reverse merged
merge_loop [] (i ∷ rest) = merge_loop (i ∷ []) rest
merge_loop ((s, e) ∷ merged) ((s', e') ∷ rest) =
    merge_loop (if ltb e s' then (s', e') ∷ (s, e) ∷ merged else (s, max e e') ∷ merged) rest

unfoldable pub merge_intervals : List Interval → List Interval
unfolding merge_loop
merge_intervals intervals = merge_loop [] (sort_intervals (nonempty intervals))
