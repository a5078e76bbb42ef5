-- ===== src/Tests/PolicyAnalyzerRuns.antt =====
-- policy_analyzer.py on concrete policies.
use storageops.Base.{◌≡◌, refl, true, false, List, [], ◌∷◌, txt, all, ◌===◌}
use storageops.Base.Try.{returns, raises}
use storageops.Json.{Json, str, arr, obj, nil, cons, Fields, end, field, get_or}
use storageops.PolicyAnalyzer.Statement.{broad_actions}
use storageops.PolicyAnalyzer.Analyze.{Report, analyze}
use storageops.PolicyAnalyzer.Analyze.Clean.{objects, readable, harmless, analyze-harmless}

abbrev reader : Fields
reader = field (txt "Effect") (str (txt "Allow")) (
    field (txt "Principal") (obj (field (txt "AWS") (str (txt "arn:aws:iam::1:role/r")) end)) (
      field (txt "Action") (arr (cons (str (txt "s3:GetObject")) nil))
        (field (txt "Resource") (str (txt "arn:aws:s3:::logs/*")) end)))

abbrev everyone : Fields
everyone = field (txt "Effect") (str (txt "allow")) (
    field (txt "Principal") (obj (field (txt "AWS") (arr (cons (str (txt "*")) nil)) end)) (
      field (txt "Action") (str (txt "s3:GetObject"))
        (field (txt "Resource") (str (txt "arn:aws:s3:::logs/*")) end)))

abbrev policy : List Fields → Fields
policy stmts = field (txt "Statement") (arr (objects stmts)) end

policy_statements :
    get_or (policy (reader ∷ everyone ∷ [])) (txt "Statement") (arr nil)
    ≡ arr (objects (reader ∷ everyone ∷ []))
unfolding get_or ◌===◌ txt
policy_statements = refl

policy_readable : all readable (reader ∷ everyone ∷ []) ≡ true
unfolding all readable storageops.PolicyAnalyzer.Statement.action_set
    storageops.PolicyAnalyzer.Statement.action_of ◌===◌
    storageops.PolicyAnalyzer.Analyze.Clean.hashable storageops.Json.truthy
    storageops.PolicyAnalyzer.Statement.field_of
policy_readable = refl

analyze-harmless_example :
    (r : Report) × (analyze (policy (reader ∷ everyone ∷ [])) ≡ returns r)
    × (r.ok ≡ all harmless (reader ∷ everyone ∷ []))
analyze-harmless_example =
    analyze-harmless (policy (reader ∷ everyone ∷ [])) (reader ∷ everyone ∷ []) policy_statements
      policy_readable

reader-harmless : harmless reader ≡ true
unfolding harmless storageops.PolicyAnalyzer.Statement.allows storageops.Json.truthy
    storageops.PolicyAnalyzer.Statement.action_of storageops.PolicyAnalyzer.Statement.is_public
    storageops.PolicyAnalyzer.Statement.principal_of storageops.PolicyAnalyzer.Statement.field_of
    storageops.PolicyAnalyzer.Statement.is_broad_resource
    storageops.PolicyAnalyzer.Statement.resource_of storageops.PolicyAnalyzer.Statement.action_set
    storageops.PolicyAnalyzer.Analyze.Clean.is_broad_text broad_actions
reader-harmless = refl

everyone_harms : harmless everyone ≡ false
unfolding harmless storageops.PolicyAnalyzer.Statement.allows storageops.Json.truthy
    storageops.PolicyAnalyzer.Statement.action_of storageops.PolicyAnalyzer.Statement.is_public
    storageops.PolicyAnalyzer.Statement.principal_of
everyone_harms = refl

-- A statement that is no mapping has no `get`.
text_statement : analyze (field (txt "Statement") (str (txt "Allow")) end) ≡ raises
unfolding analyze storageops.Json.iterate storageops.PolicyAnalyzer.Statement.flatten_statements
    ◌===◌ storageops.PolicyAnalyzer.Analyze.check_all storageops.Json.as_dict
text_statement = refl
