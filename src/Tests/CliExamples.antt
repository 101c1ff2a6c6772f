-- ===== src/Tests/CliExamples.antt =====
-- The examples of the policy file and of the commands.
use pilotfish.Base.{ℕ, zero, suc, ◌<◌, ◌≡◌, refl, arith, []}
use pilotfish.Base.Int.{pos, trunc_div, scale, ◌+ℤ◌}
use pilotfish.Base.Lists.{All, replicate, length-replicate}
use pilotfish.Base.Result.{ok, value_or}
use pilotfish.Base.Text.{Bytes}
use pilotfish.Authority.Policy.{load_bundle_json}
use pilotfish.Authority.Policy.Written.{
  written_policy, issued_at, HasFiniteBound, load_bundle_json-written_policy,
}
use pilotfish.Cli.{keygen, sign_bundle, verify_bundle, verified, describe}
use pilotfish.Cli.Signed.{IsKey, verify_bundle-sign_bundle, read_key-key_file}
use pilotfish.Core.Models.{require_finite}
use pilotfish.Core.Bundle.{PolicyBundle}
use pilotfish.Authority.{publish, default_nonce}
use pilotfish.Protocol.Envelope.{sign, signing_input}
use pilotfish.Protocol.Messages.Rules.{whole_rule}
use pilotfish.Protocol.Fields.{ts}
use pilotfish.Protocol.Messages.Bundles.{IsWellFormed, whole_bundle}
use pilotfish.Tests.Toy.{toy}
use pilotfish.Tests.Data.{ops_bundle, ops_bundle-IsWellFormed, noon, noon-InCalendar, issuer}

finite_bounds : All HasFiniteBound ops_bundle.traffic_classes
unfolding require_finite
finite_bounds = (refl, tt)

policy_loads :
    load_bundle_json (written_policy ops_bundle (pos 3600)) noon
    ≡ ok (issued_at noon (pos 3600) ops_bundle)
policy_loads =
    load_bundle_json-written_policy ops_bundle (pos 3600) noon finite_bounds
      ops_bundle-IsWellFormed.rules

load_bundle_json-written_policy_example :
    load_bundle_json (written_policy ops_bundle (pos 3600)) noon
    ≡ ok (issued_at noon (pos 3600) ops_bundle)
load_bundle_json-written_policy_example =
    load_bundle_json-written_policy ops_bundle (pos 3600) noon finite_bounds
      ops_bundle-IsWellFormed.rules

abbrev raw_key : Bytes
raw_key = replicate 32 7

octets : (n : ℕ) → All (λ b. b < 256) (replicate n 7)
octets zero = tt
octets (suc n) = (omega arith, octets n)

raw_key-IsKey : IsKey raw_key
raw_key-IsKey = record { octets = octets 32; size = length-replicate {A = ℕ} 32 7 }

abbrev stated : PolicyBundle
stated = issued_at noon (pos 3600) ops_bundle

stated-IsWellFormed : IsWellFormed stated
unfolding issued_at ts trunc_div scale ◌+ℤ◌ whole_rule
stated-IsWellFormed = record {
  issued = noon-InCalendar;
  expires = record { after_first = omega arith; before_last = omega arith };
  classes = (refl, tt);
  rules = (tt, (tt, (refl, tt)));
}

abbrev signed_file : Bytes
signed_file =
    value_or []
      (publish (record { private_key = raw_key; issuer = issuer }) stated noon default_nonce)

signed :
    sign_bundle (written_policy ops_bundle (pos 3600)) (keygen raw_key).0 issuer noon noon
    ≡ ok signed_file
unfolding sign_bundle keygen publish sign signing_input
signed = rw (policy_loads, read_key-key_file raw_key raw_key-IsKey) refl

verify_bundle-sign_bundle_example :
    verify_bundle signed_file (keygen raw_key).1
    ≡ ok (verified (describe (whole_bundle stated) issuer))
verify_bundle-sign_bundle_example =
    verify_bundle-sign_bundle raw_key (written_policy ops_bundle (pos 3600)) issuer noon noon stated
      signed_file raw_key-IsKey raw_key-IsKey policy_loads stated-IsWellFormed noon-InCalendar
      signed
