-- ===== src/Completion.antt =====
-- The results of completion checks, of week03_guarded-harness/src/guarded_harness/completion.py: their
-- merge, and the acceptance that follows from them; and the lines that reads cover.
pub mod Acceptance
pub mod Coverage
use my_ai_agent_fullstack_tr.Base.{
  Bool, List, Option, [], false, if◌then◌else◌, leb, list_eq, ltb, nat_eq, none, not, option_eq,
  pair_eq, some, true, ℕ, ◌&&◌, ◌+◌, ◌==◌, ◌||◌, ◌∷◌,
}
use my_ai_agent_fullstack_tr.Domain.ErrorCode.{ErrorCode}
use my_ai_agent_fullstack_tr.Domain.Models.{Text}
use my_ai_agent_fullstack_tr.Domain.Status.{AcceptanceStatus, acceptance_status_eq}
use my_ai_agent_fullstack_tr.Storage.Table.{Table, lookup, put}

-- The code of a check: `"OK"` or an error.
pub data CheckCode : Type 0 where
  okay : CheckCode
  failing : ErrorCode → CheckCode

-- `class _Check`, without its message and its evidence.
pub record Check : Type 0 where
  pub item_id : Text
  pub passed : Bool
  pub code : CheckCode
  pub unverifiable : Bool

-- `any(... for check in checks)`
unfoldable pub any_check : (Check → Bool) → List Check → Bool
any_check f [] = false
any_check f (c ∷ checks) = f c || any_check f checks

abbrev pub is_failure : Check → Bool
is_failure c = not c.passed

abbrev pub is_doubtful : Check → Bool
is_doubtful c = not c.passed && c.unverifiable

-- `_acceptance_status`
unfoldable pub acceptance_status : List Check → AcceptanceStatus
unfolding any_check
acceptance_status checks =
    if not (any_check is_failure checks)
    then AcceptanceStatus.accepted
    else if any_check is_doubtful checks
    then AcceptanceStatus.unverifiable
    else AcceptanceStatus.rejected

-- Two checks of one item.
unfoldable pub merge_checks : Check → Check → Check
merge_checks current check =
    let passed = current.passed && check.passed in
    record {
      item_id = check.item_id;
      passed = passed;
      code = if not passed then current.code else CheckCode.okay;
      unverifiable = current.unverifiable || check.unverifiable;
    }

unfoldable pub merged_with : Check → Option Check → Check
unfolding merge_checks
merged_with check none = check
merged_with check (some current) = merge_checks current check

-- `merged`, a dict in the order of insertion, after more checks.
unfoldable pub merge_into : Table Text Check → List Check → Table Text Check
unfolding merged_with
merge_into merged [] = merged
merge_into merged (c ∷ checks) =
    merge_into (put c.item_id (merged_with c (lookup c.item_id merged)) merged) checks

unfoldable pub values : Table Text Check → List Check
values [] = []
values ((id, c) ∷ t) = c ∷ values t

-- `_collapse_checks`
unfoldable pub collapse_checks : List Check → List Check
unfolding merge_into values
collapse_checks checks = values (merge_into [] checks)

-- `_ranges_cover`, on the ranges in order, from the line that is not yet covered.
unfoldable pub cover_from : ℕ → ℕ → List (ℕ × ℕ) → Bool
cover_from current end [] = false
cover_from current end ((range_start, range_end) ∷ ordered) =
    let rest = cover_from current end ordered in
    let beyond = cover_from (range_end + 1) end ordered in
    if ltb range_end current
    then rest
    else if ltb current range_start
    then false
    else if ltb end (range_end + 1)
    then true
    else beyond

-- The order of Python's tuples.
abbrev pub not_after : ℕ × ℕ → ℕ × ℕ → Bool
not_after (a, b) (c, d) = ltb a c || (a == c && leb b d)

unfoldable pub insert_range : ℕ × ℕ → List (ℕ × ℕ) → List (ℕ × ℕ)
insert_range r [] = r ∷ []
insert_range r (q ∷ ordered) =
    let rest = insert_range r ordered in if not_after r q then r ∷ q ∷ ordered else q ∷ rest

-- `sorted`
unfoldable pub sort_ranges : List (ℕ × ℕ) → List (ℕ × ℕ)
unfolding insert_range
sort_ranges [] = []
sort_ranges (r ∷ ranges) = insert_range r (sort_ranges ranges)

-- `_ranges_cover`
unfoldable pub ranges_cover : ℕ × ℕ → List (ℕ × ℕ) → Bool
unfolding cover_from sort_ranges
ranges_cover (start, end) ranges = cover_from start end (sort_ranges ranges)
