-- ===== src/Domain/ErrorCode.antt =====
-- `class ErrorCode` of week03_guarded-harness/src/guarded_harness/domain.py.
pub data ErrorCode : Type 0 where
  config_file_not_found config_io_error config_too_large config_yaml_invalid : ErrorCode
  config_duplicate_key config_multiple_documents config_root_not_mapping config_schema_invalid :
      ErrorCode
  config_path_invalid config_path_escape config_duplicate_deliverable : ErrorCode
  config_kind_strategy_mismatch config_approval_invalid config_fingerprint_error : ErrorCode
  domain_invalid_model domain_serialization_error domain_enum_invalid domain_id_invalid : ErrorCode
  domain_time_invalid domain_schema_version_unsupported state_database_unavailable : ErrorCode
  state_migration_failed state_schema_unsupported state_transaction_failed state_not_found :
      ErrorCode
  state_conflict state_invalid_transition state_invariant_violation state_lease_invalid : ErrorCode
  state_lease_expired state_lease_held state_budget_exceeded state_integrity_error : ErrorCode
  checkpoint_not_found checkpoint_invalid checkpoint_hash_mismatch : ErrorCode
  checkpoint_schema_unsupported checkpoint_sequence_conflict checkpoint_snapshot_too_large :
      ErrorCode
  checkpoint_write_failed recovery_not_allowed recovery_state_ambiguous : ErrorCode
  recovery_config_mismatch recovery_workspace_changed recovery_audit_invalid : ErrorCode
  recovery_approval_invalid recovery_evidence_invalid recovery_checkpoint_required : ErrorCode
  recovery_manual_review_required recovery_write_failed recovery_context_too_large : ErrorCode
  audit_write_failed audit_read_failed audit_append_only audit_sequence_conflict : ErrorCode
  audit_chain_invalid audit_event_invalid redaction_invalid_input redaction_failed : ErrorCode
  approval_not_found approval_required approval_binding_mismatch approval_invalid : ErrorCode
  approval_expired approval_rejected approval_not_executable approval_already_claimed : ErrorCode
  approval_replayed approval_conflict approval_approver_denied approval_self_approval_denied :
      ErrorCode
  approval_channel_unavailable approval_state_invalid sandbox_workspace_invalid : ErrorCode
  sandbox_git_unavailable sandbox_git_root_invalid sandbox_baseline_invalid : ErrorCode
  sandbox_workspace_dirty sandbox_workspace_changed sandbox_external_workspace_changed : ErrorCode
  sandbox_identity_changed sandbox_unsupported_platform sandbox_path_invalid : ErrorCode
  sandbox_path_out_of_workspace sandbox_path_sensitive sandbox_path_deny_read : ErrorCode
  sandbox_path_deny_write sandbox_path_protected sandbox_path_changed : ErrorCode
  sandbox_unsupported_file_type sandbox_file_too_large sandbox_write_conflict sandbox_io_error :
      ErrorCode
  sandbox_command_unknown sandbox_command_invalid sandbox_executable_denied : ErrorCode
  sandbox_shell_denied sandbox_environment_invalid sandbox_command_start_failed : ErrorCode
  sandbox_command_timeout sandbox_command_cancelled sandbox_process_termination_failed : ErrorCode
  sandbox_result_unknown tool_binary_file tool_text_encoding_invalid tool_range_out_of_bounds :
      ErrorCode
  tool_path_type_mismatch tool_git_failed tool_git_timeout tool_git_output_invalid : ErrorCode
  tool_scan_limit_exceeded tool_write_content_invalid tool_patch_empty : ErrorCode
  tool_patch_context_not_found tool_patch_ambiguous tool_patch_no_change : ErrorCode
  tool_patch_input_too_large tool_test_command_missing tool_test_failed : ErrorCode
  completion_unsupported_task completion_run_state_invalid completion_config_mismatch : ErrorCode
  completion_lease_invalid completion_internal_access_denied completion_deliverable_missing :
      ErrorCode
  completion_deliverable_empty completion_deliverable_too_large : ErrorCode
  completion_deliverable_not_changed completion_document_invalid completion_section_missing :
      ErrorCode
  completion_section_duplicate completion_fact_without_evidence completion_evidence_undefined :
      ErrorCode
  completion_evidence_duplicate completion_evidence_malformed completion_evidence_path_invalid :
      ErrorCode
  completion_evidence_line_out_of_range completion_evidence_not_read : ErrorCode
  completion_evidence_partial completion_evidence_stale completion_evidence_invalid : ErrorCode
  completion_workspace_out_of_scope completion_workspace_changed : ErrorCode
  completion_external_workspace_changed completion_identity_changed completion_audit_invalid :
      ErrorCode
  completion_claim_without_evidence completion_result_write_failed : ErrorCode
  completion_test_baseline_missing completion_test_baseline_invalid : ErrorCode
  completion_test_baseline_stale completion_test_baseline_not_failing : ErrorCode
  completion_test_command_missing completion_test_command_mismatch completion_test_start_failed :
      ErrorCode
  completion_test_timeout completion_test_result_unknown completion_test_exit_nonzero : ErrorCode
  completion_test_report_missing completion_test_report_empty completion_test_report_too_large :
      ErrorCode
  completion_test_report_malformed completion_test_report_unsafe_xml : ErrorCode
  completion_test_report_truncated completion_test_node_duplicate completion_test_node_lost :
      ErrorCode
  completion_test_baseline_failure_remains completion_test_new_node_failed : ErrorCode
  completion_test_new_skip completion_test_file_modified completion_test_file_deleted : ErrorCode
  completion_test_workspace_unstable completion_test_workspace_out_of_scope : ErrorCode
  completion_test_evidence_stale completion_test_result_write_failed : ErrorCode
  registry_invalid_definition registry_tool_conflict policy_config_invalid gate_allowed : ErrorCode
  gate_tool_not_found gate_tool_not_visible gate_invalid_argument gate_semantic_invalid : ErrorCode
  gate_permission_denied gate_risk_denied gate_mode_denied gate_repeated_call : ErrorCode
  gate_replay_suppressed gate_tool_call_id_conflict gate_budget_exhausted : ErrorCode
  gate_write_not_allowed gate_intent_write_failed gate_start_write_failed gate_handler_failed :
      ErrorCode
  gate_handler_timeout gate_result_unknown gate_result_invalid gate_result_write_failed : ErrorCode
  gate_output_invalid gate_internal_error : ErrorCode
