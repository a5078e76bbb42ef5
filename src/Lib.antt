-- ===== src/Lib.antt =====
-- Python tools that diagnose object storage, and the command that installs them and starts a session
-- of the Pi agent with them, storageops_cli/__init__.py. A tool is a script under
-- skills/<skill>/scripts/: it reads evidence (a policy, a configuration, a list of checksums) and
-- answers with one JSON report, without a network, and the tools share no state. What they share in
-- kind is in Base (texts, lists, decimal numbers, signed integers, stable sorting, dicts) and in Json
-- (a parsed JSON document, with dict.get, truth values and _as_list).
--
-- CrossAccount: skills/storageops-security-iam-policy/scripts/cross_account_access_validator.py.
--   Glob is _glob_match, Statement is _statements, _principal_*, _action_matches, _resource_matches,
--   Link is evaluate_link, whose loop over the statements carries its four variables as a record, and
--   Chain is validate: the links, the decision, the advice and the open questions.
-- PolicyAnalyzer: skills/storageops-security-iam-policy/scripts/policy_analyzer.py. Statement is the
--   helpers and what the loop of analyze finds in one statement, Analyze is the loop and the report.
-- NotificationTarget: skills/storageops-event-notification/scripts/
--   notification_target_policy_validator.py. Statement is the reading of a policy statement, Validate
--   is validate and _suggested_statement.
-- NotificationConfig: skills/storageops-event-notification/scripts/notification_config_analyzer.py.
--   Rules is _normalize_event, _event_matches, _filter_excludes and _rules, Analyze is analyze, and
--   Analyze/Documented has the configurations of the shape that the service documents. A
--   document of another shape can make them raise, which is a value of Base/Try.
-- Multipart: skills/storageops-data-consistency/scripts/multipart_etag_calculator.py. Division is
--   math.ceil(a / b), where a / b is a double: the quotient is rounded to 53 bits, ties to even, and
--   then taken up. PartSize is derive_part_size and analyze_rechunk, Etag is compute_multipart_etag
--   and _parse_observed_etag with its three patterns, Run is run, on sizes that parse_size has read.
--   MD5 is the hashlib module's: a parameter, of which the round trips use that a digest is 32
--   hexadecimal digits in lower case.
-- Lifecycle: skills/storageops-lifecycle-cost/scripts/lifecycle_rule_simulator.py, with the table of
--   small_object_analyzer.py that it imports. Classes is the tables, Timeline is the events, their
--   order and the walk over them, Analyze is the rest of analyze, _summary and _recommendation.
-- Evidence: skills/storageops-triage/scripts/evidence_completeness_checker.py. Domains is REQUIRED,
--   ALIASES and _resolve_domain, Check is check, with the readiness in hundredths.
-- EtagParser: skills/storageops-data-consistency/scripts/etag_parser.py. Classify is classify_etag and
--   augment_encryption, Consistency is check_consistency and parse_etags.
-- Throttle: skills/storageops-performance-diagnosis/scripts/throttle_detector.py. Signals is what its
--   patterns find in a line, Scan is scan, Onset is _onset_rate, with its two indices, and summary.
--   Times are microseconds; how a time is parsed is a parameter.
-- Cli: storageops_cli/__init__.py. World is what the command keeps: two agent directories (~/.storageops
--   and ~/.pi) with settings.json, auth.json, api-key, extensions/ and the skills/ beside them, the
--   install marker, and os.environ. Versions is the reading and comparison of versions. Keys is
--   _resolve_api_key_entry, _inject_auth_env, _configured_key_source and _key_conflict; Settings is
--   _merge_settings, _write_config_settings and _write_api_key; Skills is _copy_skills and
--   _copy_extension; Configure is cmd_configure; Pi is check_pi_version and _ensure_pi, without its
--   messages; Install is cmd_install, from that check to the deploy and _final_check, Doctor is _runtime_status, cmd_doctor and its report, Evaluation is cmd_eval,
--   and Session is cmd_smoke and main. A step that can raise after it changed files gives what it
--   left behind. What npm, the network, the terminal and started programs answer is a field of a
--   record that the definitions take. A directory is a list of its entries, and the order in which
--   the two keys of STORAGEOPS_KEYS are written, which is that of a set, is fixed.
-- Tests: the code on concrete inputs.
--
-- A report's prose is a data type with one constructor for each text, which holds the values that are
-- put into the text; a chosen text is so a value to reason about. Texts are lists of code points;
-- lower, upper, strip and \d are those of ASCII. Numbers that the source
-- takes as int are natural numbers where it rejects or never meets negative ones, else signed.
-- Every loop is structural recursion on its list or its text, so there is no fuel.
--
-- Not modelled: reading of files and of standard input, json and XML parsing, argparse, printing, and
-- the catch-all of main, and _ensure_httpmon, which cmd_install calls behind _ensure_pi and which
-- writes to ~/.storageops/bin and to PATH only; a document enters as a parsed value.
pub mod Base
pub mod Json
pub mod Cli
pub mod Throttle
pub mod EtagParser
pub mod CrossAccount
pub mod NotificationConfig
pub mod NotificationTarget
pub mod Evidence
pub mod Lifecycle
pub mod Multipart
pub mod PolicyAnalyzer
pub mod Tests
