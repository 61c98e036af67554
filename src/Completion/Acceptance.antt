-- ===== src/Completion/Acceptance.antt =====
-- The merge of checks in completion.py does not change the acceptance.
use my_ai_agent_fullstack_tr.Base.{
  Bool, Bool-cases, List, [], ap, arith, false, inl, inr, list_eq, nat_eq, option_eq, pair_eq, refl,
  some, ◌&&◌, ◌==◌, ◌||◌, ◌∙◌, ◌∷◌, ◌≡◌,
}
use my_ai_agent_fullstack_tr.Completion.{
  Check, acceptance_status, any_check, collapse_checks, is_doubtful, is_failure, merge_checks,
  merge_into, merged_with, values,
}
use my_ai_agent_fullstack_tr.Domain.Models.{Text}
use my_ai_agent_fullstack_tr.Storage.Table.{Table, lookup, put}

-- A check that passed is not in doubt.
abbrev is_odd : Check → Bool
is_odd c = c.passed && c.unverifiable

-- A test on checks that the merge keeps.
record Merging (f : Check → Bool) : Type 0 where
  merges :
      (current check : Check)
      → is_odd current ≡ false
      → is_odd check ≡ false
      → f (merge_checks current check) ≡ (f current || f check)

is_failure-Merging : Merging is_failure
unfolding merge_checks
is_failure-Merging = record { merges = λ current check h k. ground (arith) }

is_doubtful-Merging : Merging is_doubtful
unfolding merge_checks
is_doubtful-Merging = record { merges = λ current check h k. ground (arith, h, k) }

is_odd-merge_checks :
    (current check : Check)
    → is_odd current ≡ false
    → is_odd check ≡ false
    → is_odd (merge_checks current check) ≡ false
unfolding merge_checks
is_odd-merge_checks current check h k = ground (arith, h, k)

any_check-lookup :
    (f : Check → Bool) (id : Text) (t : Table Text Check) (c : Check)
    → any_check f (values t) ≡ false
    → lookup id t ≡ some c
    → f c ≡ false
unfolding any_check values lookup
any_check-lookup f id [] c h k = cc
any_check-lookup f id ((j, d) ∷ t) c h k = elim (Bool-cases (j == id)) [
  | inl e ↦ let same : c ≡ d = ground (arith, k, e) in ap f same ∙ ground (arith, h)
  | inr e ↦ any_check-lookup f id t c (ground (arith, h)) (ground (arith, k, e))
]

any_check-put :
    (f : Check → Bool) (id : Text) (t : Table Text Check) (c : Check)
    → ((current : Check)
        → lookup id t ≡ some current
        → f (merge_checks current c) ≡ (f current || f c))
    → any_check f (values (put id (merged_with c (lookup id t)) t))
      ≡ (any_check f (values t) || f c)
unfolding any_check values lookup put merged_with
any_check-put f id [] c h = ground (arith)
any_check-put f id ((j, d) ∷ t) c h = elim (Bool-cases (j == id)) [
  | inl e ↦ ground (arith, e, h d)
  | inr e ↦ ground (arith, e, any_check-put f id t c)
]

merge_into-any_check :
    (f : Check → Bool) (checks : List Check) (t : Table Text Check)
    → Merging f
    → any_check is_odd (values t) ≡ false
    → any_check is_odd checks ≡ false
    → any_check f (values (merge_into t checks)) ≡ (any_check f (values t) || any_check f checks)
unfolding any_check merge_into
merge_into-any_check f [] t m h k = ground (arith)
merge_into-any_check f (c ∷ checks) t m h k =
    let t' = put c.item_id (merged_with c (lookup c.item_id t)) t in
    let sane : is_odd c ≡ false = ground (arith, k) in
    let found : (current : Check) → lookup c.item_id t ≡ some current → is_odd current ≡ false =
      λ current e. any_check-lookup is_odd c.item_id t current h e in
    let kept =
      any_check-put f c.item_id t c (λ current e. m.merges current c (found current e) sane) in
    let odd = any_check-put is_odd c.item_id t c (λ current e.
      is_odd-merge_checks current c (found current e) sane
      ∙ ground (arith, found current e, sane)) in
    ground (
      arith,
      kept,
      merge_into-any_check f checks t' m (ground (arith, odd, h, sane)) (ground (arith, k)),
    )

-- The merge of repeated checks leaves the acceptance as it is: accepted when all passed, in doubt when
-- one that failed could not be verified, and rejected else, whatever checks are merged, if none of
-- them passed without being verifiable.
pub collapse_checks-acceptance_status :
    (checks : List Check)
    → any_check is_odd checks ≡ false
    → acceptance_status (collapse_checks checks) ≡ acceptance_status checks
unfolding acceptance_status collapse_checks values any_check
collapse_checks-acceptance_status checks sane = ground (
  arith,
  merge_into-any_check is_failure checks [] is_failure-Merging refl sane,
  merge_into-any_check is_doubtful checks [] is_doubtful-Merging refl sane,
)
