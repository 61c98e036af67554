-- ===== src/Completion/Coverage.antt =====
-- `_ranges_cover` of completion.py, and the lines that the ranges hold.
use my_ai_agent_fullstack_tr.Base.{
  Bool, Bool-cases, List, [], ap, arith, false, inl, inr, leb, ltb, refl, sym, true, ℕ, ◌&&◌, ◌+◌,
  ◌<◌, ◌||◌, ◌↔◌, ◌∙◌, ◌∷◌, ◌≡◌, ◌≤◌,
}
use my_ai_agent_fullstack_tr.Completion.{
  cover_from, insert_range, not_after, ranges_cover, sort_ranges,
}

-- The line lies in one of the ranges.
unfoldable is_covered : ℕ → List (ℕ × ℕ) → Bool
is_covered line [] = false
is_covered line ((range_start, range_end) ∷ ranges) =
    (leb range_start line && leb line range_end) || is_covered line ranges

-- Every line from one to another is covered.
pub AllCovered : ℕ → ℕ → List (ℕ × ℕ) → Type 0
AllCovered start end ranges = (line : ℕ) → start ≤ line → line ≤ end → is_covered line ranges ≡ true

-- All ranges start at the line or later.
data StartFrom (least : ℕ) : List (ℕ × ℕ) → Type 0 where
  no_range : StartFrom least []
  range_and :
      {range_start range_end : ℕ} {ranges : List (ℕ × ℕ)}
      → least ≤ range_start
      → StartFrom least ranges
      → StartFrom least ((range_start, range_end) ∷ ranges)

data Ordered : List (ℕ × ℕ) → Type 0 where
  no_range : Ordered []
  first :
      {range_start range_end : ℕ} {ranges : List (ℕ × ℕ)}
      → StartFrom range_start ranges
      → Ordered ranges
      → Ordered ((range_start, range_end) ∷ ranges)

StartFrom-below :
    (least line : ℕ) (ranges : List (ℕ × ℕ))
    → StartFrom least ranges
    → line < least
    → is_covered line ranges ≡ false
unfolding is_covered
StartFrom-below least line [] s h = refl
StartFrom-below least line ((a, b) ∷ ranges) (range_and k s) h =
    ground (arith, k, h, StartFrom-below least line ranges s h)

cover_from-AllCovered :
    (current end : ℕ) (ordered : List (ℕ × ℕ))
    → Ordered ordered
    → current ≤ end
    → cover_from current end ordered ≡ true
    → AllCovered current end ordered
unfolding cover_from is_covered AllCovered
cover_from-AllCovered current end [] o h k = cc
cover_from-AllCovered current end ((a, b) ∷ ordered) (first s o) h k = λ line low high.
    elim (Bool-cases (ltb b current)) [
      | inl skip ↦ ground (
        arith,
        skip,
        cover_from-AllCovered current end ordered o h (ground (arith, k, skip)) line low high,
      )
      | inr reach ↦ elim (Bool-cases (ltb end (b + 1))) [
        | inl last ↦ ground (arith, k, reach, last, low, high)
        | inr more ↦ elim (Bool-cases (leb line b)) [
          | inl here ↦ ground (arith, k, reach, here, low)
          | inr later_on ↦ ground (
            arith,
            cover_from-AllCovered (b + 1) end ordered o (ground (arith, more))
                (ground (arith, k, reach, more)) line (ground (arith, later_on)) high,
          )
        ]
      ]
    ]

AllCovered-cover_from :
    (current end : ℕ) (ordered : List (ℕ × ℕ))
    → Ordered ordered
    → current ≤ end
    → AllCovered current end ordered
    → cover_from current end ordered ≡ true
unfolding cover_from is_covered AllCovered
AllCovered-cover_from current end [] o h k = k current (omega arith) h
AllCovered-cover_from current end ((a, b) ∷ ordered) (first s o) h k =
    elim (Bool-cases (ltb b current)) [
      | inl skip ↦ ground (
        arith,
        skip,
        AllCovered-cover_from current end ordered o h
            (λ line low high. ground (arith, k line low high, skip, low)),
      )
      | inr reach ↦ elim (Bool-cases (ltb current a)) [
        | inl gap ↦ ground (
          arith,
          k current (omega arith) h,
          gap,
          StartFrom-below a current ordered s (ground (arith, gap)),
        )
        | inr no_gap ↦ elim (Bool-cases (ltb end (b + 1))) [
          | inl last ↦ ground (arith, reach, no_gap, last)
          | inr more ↦ ground (
            arith,
            reach,
            no_gap,
            more,
            AllCovered-cover_from (b + 1) end ordered o (ground (arith, more))
                (λ line low high. ground (arith, k line (ground (arith, low, reach)) high, low)),
          )
        ]
      ]
    ]

StartFrom-insert_range :
    (least a b : ℕ) (ordered : List (ℕ × ℕ))
    → least ≤ a
    → StartFrom least ordered
    → StartFrom least (insert_range (a, b) ordered)
unfolding insert_range
StartFrom-insert_range least a b [] h s = range_and h s
StartFrom-insert_range least a b ((c, d) ∷ ordered) h (range_and k s) =
    elim (Bool-cases (not_after (a, b) (c, d))) [
      | inl e ↦ rw (e) (range_and h (range_and k s))
      | inr e ↦ rw (e) (range_and k (StartFrom-insert_range least a b ordered h s))
    ]

StartFrom-weaken :
    (least less : ℕ) (ordered : List (ℕ × ℕ))
    → less ≤ least
    → StartFrom least ordered
    → StartFrom less ordered
StartFrom-weaken least less [] h s = StartFrom.no_range
StartFrom-weaken least less ((c, d) ∷ ordered) h (range_and k s) =
    range_and (omega (arith, h, k)) (StartFrom-weaken least less ordered h s)

insert_range-Ordered :
    (a b : ℕ) (ordered : List (ℕ × ℕ)) → Ordered ordered → Ordered (insert_range (a, b) ordered)
unfolding insert_range
insert_range-Ordered a b [] o = first StartFrom.no_range o
insert_range-Ordered a b ((c, d) ∷ ordered) (first s o) =
    elim (Bool-cases (not_after (a, b) (c, d))) [
      | inl e ↦
          let le : a ≤ c = ground (arith, e) in
          rw (e) (first (range_and le (StartFrom-weaken c a ordered le s)) (first s o))
      | inr e ↦ rw (e) (
          first (StartFrom-insert_range c a b ordered (ground (arith, e)) s)
            (insert_range-Ordered a b ordered o))
    ]

sort_ranges-Ordered : (ranges : List (ℕ × ℕ)) → Ordered (sort_ranges ranges)
unfolding sort_ranges
sort_ranges-Ordered [] = Ordered.no_range
sort_ranges-Ordered ((a, b) ∷ ranges) =
    insert_range-Ordered a b (sort_ranges ranges) (sort_ranges-Ordered ranges)

is_covered-insert_range :
    (line a b : ℕ) (ordered : List (ℕ × ℕ))
    → is_covered line (insert_range (a, b) ordered)
      ≡ ((leb a line && leb line b) || is_covered line ordered)
unfolding is_covered insert_range
is_covered-insert_range line a b [] = refl
is_covered-insert_range line a b ((c, d) ∷ ordered) = elim (Bool-cases (not_after (a, b) (c, d))) [
  | inl e ↦ rw (e) refl
  | inr e ↦ rw (e) ground (arith, is_covered-insert_range line a b ordered)
]

is_covered-sort_ranges :
    (line : ℕ) (ranges : List (ℕ × ℕ))
    → is_covered line (sort_ranges ranges) ≡ is_covered line ranges
unfolding is_covered sort_ranges
is_covered-sort_ranges line [] = refl
is_covered-sort_ranges line ((a, b) ∷ ranges) =
    is_covered-insert_range line a b (sort_ranges ranges)
    ∙ ap (λ c. (leb a line && leb line b) || c) (is_covered-sort_ranges line ranges)

-- The ranges cover the required lines exactly when each of these lines lies in one of the ranges,
-- in whatever order they come and however they overlap.
pub ranges_cover_iff :
    (start end : ℕ) (ranges : List (ℕ × ℕ))
    → start ≤ end
    → (ranges_cover (start, end) ranges ≡ true) ↔ AllCovered start end ranges
unfolding ranges_cover AllCovered
ranges_cover_iff start end ranges h =
    let o = sort_ranges-Ordered ranges in
    (
      λ k line low high.
          sym (is_covered-sort_ranges line ranges)
          ∙ cover_from-AllCovered start end (sort_ranges ranges) o h k line low high,
      λ k.
          AllCovered-cover_from start end (sort_ranges ranges) o h
            (λ line low high. is_covered-sort_ranges line ranges ∙ k line low high),
    )
