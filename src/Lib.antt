-- ===== src/Lib.antt =====
-- Pilotfish: a site's agent that decides which access links each class of traffic may use, under a
-- policy that an authority signs, and that keeps a signed chain of receipts of what it decided.
--
-- The parts and their files:
--   * Core/Models (pilotfish/core/models.py): links, observations, classes and evidence snapshots.
--   * Core/Rules (pilotfish/core/rules.py): the nine rule classes as constructors of `Rule`; the
--     `evaluate` methods as the clauses of `evaluate`.
--   * Core/Bundle (pilotfish/core/bundle.py): bundles, the inventory hash and the floor policy.
--   * Core/Decide (pilotfish/core/decide.py): `decide`. Its loops are `decide_class` and `sift`.
--   * Protocol/Messages, Protocol/Fields, Protocol/Envelope (pilotfish/protocol/messages.py and
--     envelope.py): the encoders and decoders of every message, and the signed envelope.
--   * Agent/Epoch (pilotfish/agent/epoch.py): the interface of an epoch store, with the store in
--     memory and the one in a file, whose disk can refuse any call or lose power after any.
--   * Agent/BundleStore (pilotfish/agent/bundle_store.py): `accept`, `current` and construction,
--     over any epoch store. Agent/BundleStore/Life has its life with restarts.
--   * Agent/Receipts (pilotfish/agent/receipts.py): receipts, `record`, `recover`, `verify_chain`,
--     over any readable sink.
--   * Agent/Cycle (pilotfish/agent/cycle.py): `run_once`, over any sink and dataplane adapter.
--   * Authority, Authority/Json, Authority/Policy (pilotfish/authority/signer.py): `publish`,
--     `sign_floor`, and `load_bundle_json` on the JSON value of a policy file.
--   * Cli (pilotfish/cli.py): `keygen`, `sign_bundle` and `verify_bundle` on the content of files.
--   * Adapters (pilotfish/adapters/noop.py and file_sink.py): the no-op dataplane, the memory sink,
--     and the file sink on the content of its file, with base64 in Base.
--   * Sim/Links (sim/links.py): the four link models as one record with a tag, what each reports in
--     a step, and the fleet. Sim/Scenario, Sim/Scenarios (sim/scenario.py, scenarios.py): events,
--     scenarios, and the site, policy and five scenarios of the comparison.
--   * Sim/Selectors (sim/selectors.py): greedy, static priority and hysteresis; Sim/Selectors/
--     Governed is the path that runs the agent. Sim/Events, Sim/Traffic, Sim/Run (sim/run.py): the
--     events, the traffic of a step, and the loop. Sim/Metrics, Sim/Report (sim/metrics.py,
--     report.py): the oracle, the measures, the comparison and its table.
--   * Base, Float: texts, integers, dictionaries, results, sorting, and binary floating point with its
--     arithmetic. Platform: what the program calls and does not implement. Tests: a platform and data
--     on which the examples stand.
--
-- How the parts meet: the bundle store verifies envelopes and decodes bundles with Protocol; the
-- cycle asks the store for the bundle in force, decides with Core, and records with Receipts before
-- and after it calls the dataplane. The governed selector of the simulator signs bundles with
-- Authority and runs that cycle over the memory stores and the no-op dataplane; a run takes any
-- `Selector`, a record of its methods over what it holds. A method that changes an object takes the object's state and
-- returns it with the result, also where it raises.
--
-- The choices of the model:
--   * cbor2, hashlib, the Ed25519 keys and the rendering of numbers are the fields of `Platform`,
--     with what the code relies on: what is encoded decodes to itself, a digest has 32 octets, what
--     a key signs verifies under its public key, and seconds of a time difference are finite and
--     grow with it. No theorem assumes that hashes do not collide.
--   * A `datetime` is aware, and a whole number of microseconds since the Unix epoch; the checks that
--     refuse naive ones have no counterpart. Comparisons of timestamps are exact.
--   * A float is NaN, an infinity or a whole number of units of 2^-1074. -0.0 is 0.0, and an integer
--     that stands for a float, on the wire or in a policy file, becomes that float. The source keeps
--     both apart where it encodes again, so that a bundle with such a bound and a snapshot with such
--     a value have other hashes than in the model; sorted does not tell them apart, so the order of
--     two such observations can change the hash of a snapshot, which the model does not show.
--   * A time has no bounds: the `OverflowError` of a `datetime` beyond the year 9999, as of
--     `valid_until` in `decide`, has no counterpart. The codecs do ask for a time of the calendar.
--   * What is written to the epoch file stands in a cache until it is synced. A power cut may put
--     anything in place of what was not synced, and may lose the rename.
--   * A value on the wire has its type. A field that the source would take as it is and that has
--     another type is a `type_error` of the model; so is `validity_s` of a policy file that is not a
--     whole number. Text is a list of code points.
--   * Exceptions are the constructors of `Error`; their messages are left out, except the text that
--     the cycle records of an adapter's exception.
--   * `int` on the epoch file reads ASCII digits with a sign; `bytes.fromhex` reads no white space.
--   * Float arithmetic rounds to the nearest number, a tie to the even one; what is too large is
--     infinite. Seconds and bytes of the simulator are natural numbers.
--   * `random.Random` is the record `Random`: what a seed starts, and `uniform`. The sum of floats and
--     the format `:.2f` are the record `Builtins`. A dictionary is a list of pairs in the order of
--     insertion.
--   * A run of the simulator ends at an exception, and what its objects hold then is not looked at.
--   * `timedelta(seconds=d.total_seconds())` of the governed path is `d`, which a float holds to the
--     microsecond over 270 years.
--   * Loops are structural recursion. The digits of a number are found on fuel that is the number
--     itself, which is enough since each step divides it by ten.
--
-- Not modelled: pilotfish/protocol/canonical.py, which is two calls of cbor2; the parsing of command
-- line arguments and what the commands print besides the description of a bundle; the reading of
-- JSON text; and the exports and exception classes of pilotfish/sdk.
pub mod Base
pub mod Float
pub mod Platform
pub mod Core
pub mod Protocol
pub mod Agent
pub mod Adapters
pub mod Authority
pub mod Cli
pub mod Sim
pub mod Tests
