-- ===== src/PolicyAnalyzer/Analyze.antt =====
-- `analyze` of policy_analyzer.py.
pub mod Clean
use storageops.Base.{
  ℕ, ◌+◌, ◌==◌, if◌then◌else◌, Bool, true, false, List, [], ◌∷◌, ◌++◌, map, keep, length,
}
use storageops.Base.Try.{Try, returns, raises, ◌>>=◌}
use storageops.Json.{Json, Fields, as_dict, iterate}
use storageops.PolicyAnalyzer.Statement.{
  Category, broad_resource_risk, condition_keys, explicit_denies, least_privilege_violations,
  missing_allow, not_action_risk, not_principal_risk, overly_broad_actions, public_access_risk,
  Finding, category, is_issue, check, flatten_statements,
}

-- The loop over the statements from number `i` on.
unfoldable pub check_all : ℕ → List Json → Try (List Finding)
check_all i [] = returns []
check_all i (v ∷ vs) = do
  stmt ← as_dict v
  found ← check i stmt
  rest ← check_all (i + 1) vs
  returns (found ++ rest)

unfoldable pub same_category : Category → Category → Bool
same_category broad_resource_risk broad_resource_risk = true
same_category condition_keys condition_keys = true
same_category explicit_denies explicit_denies = true
same_category least_privilege_violations least_privilege_violations = true
same_category missing_allow missing_allow = true
same_category not_action_risk not_action_risk = true
same_category not_principal_risk not_principal_risk = true
same_category overly_broad_actions overly_broad_actions = true
same_category public_access_risk public_access_risk = true
same_category _ _ = false

-- The categories in the order of their names.
unfoldable pub categories : List Category
categories =
    broad_resource_risk ∷ condition_keys ∷ explicit_denies ∷ least_privilege_violations
    ∷ missing_allow ∷ not_action_risk ∷ not_principal_risk ∷ overly_broad_actions
    ∷ public_access_risk ∷ []

abbrev add_detail :
    Category → List Finding → List (Category × List Finding) → List (Category × List Finding)
add_detail c [] more = more
add_detail c (f ∷ fs) more = (c, f ∷ fs) ∷ more

-- `details`, which has no key without items.
unfoldable pub details_of : List Finding → List Category → List (Category × List Finding)
unfolding same_category
details_of fs [] = []
details_of fs (c ∷ cs) =
    add_detail c (keep (λ f. same_category c (category f)) fs) (details_of fs cs)

pub record Report : Type 0 where
  pub ok : Bool
  pub summary : List (ℕ × Category)
  pub details : List (Category × List Finding)

-- An empty summary is the text of a clean policy.
unfoldable pub report_of : List Finding → Report
unfolding categories
report_of fs = record {
  ok = length (keep is_issue fs) == 0;
  summary = map (λ (c, items). (length items, c)) (details_of fs categories);
  details = details_of fs categories;
}

unfoldable pub analyze : Fields → Try Report
analyze doc = do vs ← iterate (flatten_statements doc); fs ← check_all 1 vs; returns (report_of fs)
