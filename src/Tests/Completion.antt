-- ===== src/Tests/Completion.antt =====
-- The theorems on completion checks, applied.
use my_ai_agent_fullstack_tr.Base.{
  Bool, List, List-discrete, [], arith, false, list_eq, nat_eq, option_eq, pair_eq, refl, true,
  ℕ_discrete, ◌↔◌, ◌∷◌, ◌≡◌,
}
use my_ai_agent_fullstack_tr.Completion.{
  Check, CheckCode, acceptance_status, any_check, collapse_checks, merge_checks, merged_with,
  ranges_cover,
}
use my_ai_agent_fullstack_tr.Completion.Acceptance.{collapse_checks-acceptance_status}
use my_ai_agent_fullstack_tr.Completion.Coverage.{AllCovered, ranges_cover_iff}
use my_ai_agent_fullstack_tr.Domain.ErrorCode.{completion_document_invalid}
use my_ai_agent_fullstack_tr.Storage.Table.{lookup, put}

abbrev item : Bool → CheckCode → Check
item b c = record { item_id = 1 ∷ []; passed = b; code = c; unverifiable = false }

abbrev twice_checked : List Check
twice_checked =
    item true CheckCode.okay ∷ item false (CheckCode.failing completion_document_invalid) ∷ []

collapse_checks-acceptance_status_example :
    acceptance_status (collapse_checks twice_checked) ≡ acceptance_status twice_checked
unfolding any_check
collapse_checks-acceptance_status_example = collapse_checks-acceptance_status twice_checked refl

-- The item has failed, but its code is that of the check that passed.
failed_with_ok : collapse_checks twice_checked ≡ item false CheckCode.okay ∷ []
unfolding collapse_checks merge_checks merged_with lookup put ℕ_discrete List-discrete
failed_with_ok = refl

ranges_cover_iff_example :
    (ranges_cover (2, 9) ((5, 9) ∷ (1, 4) ∷ []) ≡ true) ↔ AllCovered 2 9 ((5, 9) ∷ (1, 4) ∷ [])
ranges_cover_iff_example = ranges_cover_iff 2 9 ((5, 9) ∷ (1, 4) ∷ []) (omega arith)
