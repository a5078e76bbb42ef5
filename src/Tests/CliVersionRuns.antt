-- ===== src/Tests/CliVersionRuns.antt =====
-- Versions of storageops_cli/__init__.py on concrete texts.
use storageops.Base.{◌≡◌, refl, true, false, none, some, List, [], ◌∷◌, ◌++◌, Text, txt}
use storageops.Cli.Versions.{
  Triple, parse_version_triple, tuple_lt, suggest_node_path, is_newer_version, pi_version_ok,
  node_too_old,
}
use storageops.Cli.Versions.Order.{IsNewest, suggest_node_path-IsNewest}
use storageops.Cli.Versions.Reading.{dotted, is_newer_version-dotted}

abbrev node_names : List Text
node_names = txt "v18.20.1" ∷ txt "v22.19.0" ∷ txt "v24.1.0" ∷ txt "system" ∷ []

node_suggested : suggest_node_path node_names ≡ some (txt "v24.1.0")
unfolding suggest_node_path storageops.Base.sort_by storageops.Cli.Versions.node_candidates
    parse_version_triple txt storageops.Cli.Versions.match_triple storageops.Cli.Versions.triple_lt
    storageops.Cli.Versions.min_node_version storageops.Cli.Versions.newest_first
node_suggested = refl

suggest_node_path-IsNewest_example : (v : Triple) × IsNewest v (txt "v24.1.0") node_names
suggest_node_path-IsNewest_example =
    suggest_node_path-IsNewest node_names (txt "v24.1.0") node_suggested

is_newer_version-dotted_example :
    is_newer_version (dotted 1 (10 ∷ []) ++ txt ".dev1") (dotted 1 (9 ∷ 3 ∷ []) ++ txt "rc1")
    ≡ tuple_lt (1 ∷ 9 ∷ 3 ∷ []) (1 ∷ 10 ∷ [])
unfolding storageops.Cli.Versions.Reading.ends_version txt storageops.Base.is_digit
is_newer_version-dotted_example =
    is_newer_version-dotted 1 1 (10 ∷ []) (9 ∷ 3 ∷ []) (txt ".dev1") (txt "rc1") refl refl

ten_after_nine : is_newer_version (txt "1.10") (txt "1.9.3") ≡ true
unfolding is_newer_version storageops.Cli.Versions.version_tuple txt storageops.Base.is_digit
    storageops.Cli.Versions.more_digits tuple_lt storageops.Base.add_digit
ten_after_nine = refl

old_pi : pi_version_ok (txt "pi 0.77.9") ≡ false
unfolding pi_version_ok storageops.Cli.Versions.triple_lt parse_version_triple txt
    storageops.Cli.Versions.match_triple storageops.Cli.Versions.min_pi_version
old_pi = refl

no_node : node_too_old none ≡ false
unfolding node_too_old
no_node = refl
