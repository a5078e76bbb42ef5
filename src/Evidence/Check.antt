-- ===== src/Evidence/Check.antt =====
-- `check` of evidence_completeness_checker.py. The readiness, `round(present / total, 2)`, is in
-- hundredths: a domain has five to seven items, and no quotient of such numbers is a tie.
pub mod Complete
use storageops.Base.{
  ℕ, ◌+◌, ◌*◌, ◌/◌, ◌==◌, leb, if◌then◌else◌, Bool, true, false, not, Option, none, some, List, [],
  ◌∷◌, map, any, keep, length, Text, lower, contains_text,
}
use storageops.Evidence.Domains.{Domain, Item, required, resolve_domain}

pub data Verdict : Type 0 where
  ready partial insufficient : Verdict

-- `any(k.lower() in low for k in keywords)`, the text already in lower case.
unfoldable pub is_present : Text → Item → Bool
unfolding any contains_text lower
is_present low (label, keywords) = any (λ k. contains_text (lower k) low) keywords

unfoldable pub readiness : ℕ → ℕ → ℕ
readiness present total = if total == 0 then 0 else (200 * present + total) / (2 * total)

unfoldable pub verdict_of : ℕ → Verdict
verdict_of hundredths =
    if leb 80 hundredths then ready else if leb 50 hundredths then partial else insufficient

-- The recommendation follows from the verdict and the missing items.
pub record Report : Type 0 where
  pub domain : Domain
  pub hundredths : ℕ
  pub verdict : Verdict
  pub present : List Text
  pub missing : List Text

abbrev pub label_of : Item → Text
label_of (label, keywords) = label

unfoldable pub check_domain : Domain → Text → Report
unfolding readiness verdict_of
check_domain domain text =
    let low = lower text in
    let items = required domain in
    let present = map label_of (keep (is_present low) items) in
    let missing = map label_of (keep (λ x. not (is_present low x)) items) in
    let hundredths = readiness (length present) (length present + length missing) in
    record {
      domain = domain;
      hundredths = hundredths;
      verdict = verdict_of hundredths;
      present = present;
      missing = missing;
    }

abbrev report_for : Text → Option Domain → Option Report
report_for text none = none
report_for text (some domain) = some (check_domain domain text)

-- No report where the domain is not known.
unfoldable pub check : Text → Text → Option Report
check domain text = report_for text (resolve_domain domain)
