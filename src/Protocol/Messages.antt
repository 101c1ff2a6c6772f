-- ===== src/Protocol/Messages.antt =====
-- protocol/messages.py: the codecs, one file for each group of messages.
pub mod Rules
pub mod Links
pub mod Bundles
pub mod Decisions
pub mod Batches
use pilotfish.Base.Text.{Text, text}

abbrev pub msg_policy_bundle : Text
msg_policy_bundle = text "POLICY_BUNDLE"

abbrev pub msg_observation_batch : Text
msg_observation_batch = text "OBSERVATION_BATCH"

abbrev pub msg_decision_receipt : Text
msg_decision_receipt = text "DECISION_RECEIPT"

abbrev pub msg_authority_directive : Text
msg_authority_directive = text "AUTHORITY_DIRECTIVE"

abbrev pub msg_floor_config : Text
msg_floor_config = text "FLOOR_CONFIG"
