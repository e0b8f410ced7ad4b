-- ===== src/Comm/Error.antt =====
-- world/communication/CommunicationError.h, and the RegistryError of world/registry/Registry.h with
-- the standard exceptions of addresses and chunks. The program tells errors apart by their text;
-- here each `throw` has a constructor, and the text is left out. `thrown` is what foreign code
-- throws.
use clone_craft.Base.{ℕ}

pub data Error : Type 0 where
  no_message_id bad_kind no_sender no_receiver bad_context bad_action bad_capability : Error
  reply_without_correlation reply_without_address zero_correlation ids_exhausted : Error
  unknown_schema any_schema bad_signal_kind bad_signal_action signal_conflict no_signal : Error
  duplicate_slot empty_action_id empty_action duplicate_action : Error
  bad_handler_kind bad_handler_action empty_handler bad_handler_context : Error
  bad_handler_capability duplicate_route no_handler event_replied : Error
  reentrant_pump bad_action_id bad_slot_kind unknown_action incompatible_schema : Error
  bad_output_kind wildcard_or_namespaced unbound_action wrong_payload no_slot unauthorized : Error
  too_many_outputs wrong_output_kind wrong_output_payload uncorrelated_output : Error
  undeliverable nothing_pending backpressure commit_failed empty_principal : Error
  trace_reentrancy zero_handoff after_shutdown sequence_overflow time_overflow : Error
  unknown_id duplicate_id block_claimed bad_scope bad_value_type bad_storage : Error
  bad_sidecar_id bad_bit_width float_bit_width bad_default dense_hierarchy no_version : Error
  no_air too_many_blocks unknown_block unknown_runtime_id : Error
  bad_coordinate bad_address wrong_block_count sector_overflow : Error
  rejected : Error → Error
  thrown : ℕ → Error
