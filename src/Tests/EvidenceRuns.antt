-- ===== src/Tests/EvidenceRuns.antt =====
-- evidence_completeness_checker.py on a concrete text.
use storageops.Base.{◌≡◌, refl, ◌≤◌, ◌+◌, none, some, ◌++◌, Text, txt, length}
use storageops.Base.Affixes.{Among}
use storageops.Evidence.Domains.{lifecycle_cost, required, resolve_domain}
use storageops.Evidence.Check.{Report, check}
use storageops.Evidence.Check.Complete.{IsJudged, check-IsJudged, check-more_text}

lifecycle_known : resolve_domain (txt " StorageOps-Lifecycle-Cost") ≡ some lifecycle_cost
unfolding resolve_domain
lifecycle_known = refl

mount_unknown : resolve_domain (txt "storage") ≡ none
unfolding resolve_domain
mount_unknown = refl

check-IsJudged_example :
    (r : Report) × (check (txt " StorageOps-Lifecycle-Cost") (txt "a GLACIER rule") ≡ some r)
    × (length r.present + length r.missing ≡ length (required lifecycle_cost))
    × IsJudged r.verdict (length r.present) (length (required lifecycle_cost))
check-IsJudged_example =
    check-IsJudged (txt " StorageOps-Lifecycle-Cost") (txt "a GLACIER rule") lifecycle_cost
      lifecycle_known

check-more_text_example :
    (r q : Report) × (check (txt " StorageOps-Lifecycle-Cost") (txt "a GLACIER rule") ≡ some r)
    × (check (txt " StorageOps-Lifecycle-Cost") (txt "days: " ++ (txt "a GLACIER rule" ++ txt "!"))
        ≡ some q)
    × ((l : Text) → Among l q.missing → Among l r.missing)
    × (length r.present ≤ length q.present)
check-more_text_example =
    check-more_text (txt " StorageOps-Lifecycle-Cost") (txt "days: ") (txt "a GLACIER rule")
      (txt "!") lifecycle_cost lifecycle_known
