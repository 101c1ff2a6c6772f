-- ===== src/Tests/WireExamples.antt =====
-- The examples of protocol/.
use pilotfish.Base.{◌≡◌, refl, [], ◌∷◌, ◌++◌, ◌*◌}
use pilotfish.Base.Int.{pos}
use pilotfish.Base.Result.{ok}
use pilotfish.Base.Text.{text}
use pilotfish.Core.Rules.{Rule, freshness}
use pilotfish.Float.{finite, unit}
use pilotfish.Platform.{int}
use pilotfish.Protocol.Messages.Rules.{
  decode_rule, encode_rule, whole_rule, decode_rule-encode_rule,
}
use pilotfish.Protocol.Messages.Bundles.{
  encode_bundle, decode_bundle, whole_bundle, decode_bundle-encode_bundle,
}
use pilotfish.Protocol.Messages.Decisions.{
  encode_decision, decode_decision, whole_decision, decode_decision-encode_decision,
}
use pilotfish.Protocol.Envelope.{
  encode_envelope, decode_envelope, whole_envelope, decode_envelope-encode_envelope,
}
use pilotfish.Tests.Toy.{toy}
use pilotfish.Tests.Data.{
  decision, decision-HasCalendarTimes, test_envelope, noon-InCalendar, ops_bundle,
  ops_bundle-IsWellFormed,
}

abbrev fresh_rtt : Rule
fresh_rtt = freshness (text "R3") (text "fiber") (text "rtt_ms") (finite (pos (30 * unit)))

decode_rule-encode_rule_example :
    decode_rule (encode_rule fresh_rtt ++ int (pos 1) ∷ []) ≡ ok (whole_rule fresh_rtt)
decode_rule-encode_rule_example = decode_rule-encode_rule fresh_rtt (int (pos 1) ∷ []) refl

decode_bundle-encode_bundle_example :
    decode_bundle (encode_bundle ops_bundle) ≡ ok (whole_bundle ops_bundle)
decode_bundle-encode_bundle_example = decode_bundle-encode_bundle ops_bundle ops_bundle-IsWellFormed

decode_decision-encode_decision_example :
    decode_decision (encode_decision decision) ≡ ok (whole_decision decision)
decode_decision-encode_decision_example =
    decode_decision-encode_decision decision decision-HasCalendarTimes

decode_envelope-encode_envelope_example :
    decode_envelope (encode_envelope test_envelope) ≡ ok (whole_envelope test_envelope)
decode_envelope-encode_envelope_example =
    decode_envelope-encode_envelope test_envelope noon-InCalendar
