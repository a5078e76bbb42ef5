-- ===== src/Cli/Doctor/Report.antt =====
-- What `storageops doctor` prints: `_doctor_report` and the rows of `cmd_doctor`.
use storageops.Base.{
  leb, ltb, if◌then◌else◌, Bool, true, false, not, ◌&&◌, ◌||◌, Option, none, some, List, [], ◌∷◌,
  ◌++◌, Text, txt, ◌===◌, decimal,
}
use storageops.Json.{Json, null, bool, num, str, arr, Fields, end, field, get_or, is_empty, py_str}
use storageops.Cli.Versions.{Triple, node_ok, is_newer_version}
use storageops.Cli.Keys.{Source, from_env, key_file, from_auth}
use storageops.Cli.Settings.{texts}
use storageops.Cli.Doctor.{
  Machine, Status, dotted_triple, node_path_hint, node_doctor_detail, live_diagnosis_available,
}

-- What `_configured_key_source` returns.
unfoldable pub source_label : Source → Text
unfolding txt
source_label (from_env v) = txt "env (" ++ (v ++ txt ")")
source_label key_file = txt "api-key file"
source_label (from_auth provider) = txt "auth.json (" ++ (provider ++ txt ")")

-- `", ".join(names)`
unfoldable pub comma_list : List Text → Text
unfolding txt
comma_list [] = []
comma_list (t ∷ []) = t
comma_list (t ∷ s ∷ ts) = t ++ (txt ", " ++ comma_list (s ∷ ts))

-- What `_key_conflict` returns.
unfoldable pub conflict_label : List Text → Text
unfolding comma_list txt
conflict_label names =
    txt "environment key overrides api-key file (" ++ (comma_list names ++ txt ")")

abbrev source_text : Option Source → Option Text
source_text none = none
source_text (some s) = some (source_label s)

abbrev conflict_text : Option (List Text) → Option Text
conflict_text none = none
conflict_text (some names) = some (conflict_label names)

abbrev or_null : Option Text → Json
or_null none = null
or_null (some t) = str t

abbrev triple_json : Option Triple → Json
triple_json none = null
triple_json (some v) = str (dotted_triple v)

abbrev full_or_null : Option Text → Json
full_or_null none = null
full_or_null (some []) = null
full_or_null (some (c ∷ s)) = str (c ∷ s)

unfoldable pub install_mode : Status → Text
unfolding txt
install_mode s =
    if s.independent
    then txt "independent"
    else if s.merged
    then txt "merged"
    else txt "not_installed"

-- `_doctor_report`
unfoldable pub doctor_report : Machine → Status → Bool × Text → Fields
unfolding source_label conflict_label install_mode dotted_triple node_ok node_path_hint
    live_diagnosis_available texts decimal txt
doctor_report machine s (ready, next_action) =
    field (txt "storageops_version") (str machine.version) (
      field (txt "storageops_latest") (or_null machine.latest) (
        field (txt "pi_version") (str machine.pi_ver) (
          field (txt "pi_latest") (or_null machine.pi_latest) (
            field (txt "pi_ok") (bool machine.pi_ok) (
              field (txt "node_version") (triple_json machine.node_triple) (
                field (txt "node_ok") (bool (node_ok machine.node_triple)) (
                  field (txt "node_path_hint") (or_null (node_path_hint machine)) (
                    field (txt "install_mode") (str (install_mode s)) (
                      field (txt "agent_dir") (str (machine.agent_path s.active)) (
                        field (txt "skill_count") (num (decimal s.skill_count)) (
                          field (txt "expected_skills") (num (decimal s.expected_skills)) (
                            field (txt "unexpected_skills") (arr (texts s.unexpected)) (
                              field (txt "httpmon") (full_or_null machine.httpmon) (
                                field (txt "api_key_source") (or_null (source_text s.key_source)) (
                                  field (txt "api_key_conflict")
                                    (or_null (conflict_text s.conflict))
                                    (field (txt "default_model") (str s.default_model) (
                                      field (txt "ready") (bool ready) (
                                        field (txt "live_diagnosis_available")
                                          (bool (live_diagnosis_available machine s))
                                          (field (txt "next_action") (str next_action)
                                            end)))))))))))))))))))

-- A line of the table: its name, `ok` or `warn`, and the detail.
pub record Row : Type 0 where
  pub name : Text
  pub fine : Bool
  pub detail : Text

abbrev row : Text → Bool → Text → Row
row name fine detail = record { name = name; fine = fine; detail = detail }

abbrev given_text : Option Text → Text → (Text → Text) → Text
given_text none other f = other
given_text (some []) other f = other
given_text (some (c ∷ s)) other f = f (c ∷ s)

abbrev found_text : Option Text → Bool
found_text none = false
found_text (some s) = not (s === [])

abbrev newer_than : Option Text → Text → Bool
newer_than none current = false
newer_than (some []) current = false
newer_than (some (c ∷ s)) current = is_newer_version (c ∷ s) current

-- Where `latest` is empty or missing, the check was not available.
abbrev pypi_row : Option Text → Text → Row
pypi_row latest current = row (txt "PyPI") (not (newer_than latest current)) (
    given_text latest (txt "version check unavailable")
      (λ v. if newer_than latest current then txt "newer version available: " ++ v else v))

abbrev pi_row : Machine → Row
pi_row machine = row (txt "Pi") machine.pi_ok (
    machine.pi_ver
    ++ (txt " ("
        ++ (machine.pi_path
            ++ (txt ")"
                ++ (if machine.pi_ok && newer_than machine.pi_latest machine.pi_ver
                    then given_text machine.pi_latest [] (λ v.
                      txt "  -- newer Pi "
                      ++ (v ++ txt " available: npm install -g @earendil-works/pi-coding-agent"))
                    else [])))))

abbrev install_row : Machine → Status → Row
install_row machine s = row (txt "Install") (s.independent || s.merged) (
    (if s.independent
      then txt "independent"
      else if s.merged
      then txt "merged"
      else txt "not installed")
    ++ (txt " (" ++ (machine.agent_path s.active ++ txt ")")))

abbrev first_five : List Text → List Text
first_five (a ∷ b ∷ c ∷ d ∷ e ∷ more) = a ∷ b ∷ c ∷ d ∷ e ∷ []
first_five names = names

abbrev stale_note : List Text → Text
stale_note [] = []
stale_note (t ∷ ts) =
    txt "  -- stale: "
    ++ (comma_list (first_five (t ∷ ts)) ++ txt " (run storageops install --force)")

abbrev none_stale : List Text → Bool
none_stale [] = true
none_stale (t ∷ ts) = false

-- Whether as many packs are there as the package has, and no stale one.
unfoldable pub skills_ok : Status → Bool
skills_ok s =
    (if ltb 0 s.expected_skills then leb s.expected_skills s.skill_count else ltb 0 s.skill_count)
    && none_stale s.unexpected

abbrev skills_row : Machine → Status → Row
skills_row machine s = row (txt "Skills") (skills_ok s) (
    decimal s.skill_count
    ++ (txt " packs"
        ++ ((if ltb 0 s.expected_skills then txt " of " ++ decimal s.expected_skills else [])
            ++ (txt " ("
                ++ (machine.skills_path s.active ++ (txt ")" ++ stale_note s.unexpected))))))

abbrev source_row : Option Source → Row
source_row none = row (txt "API key") false (txt "not configured")
source_row (some s) = row (txt "API key") true (source_label s)

abbrev conflict_rows : Option (List Text) → List Row → List Row
conflict_rows none rows = rows
conflict_rows (some names) rows = row (txt "Key conflict") false (conflict_label names) ∷ rows

abbrev deployed_rows : Fields → List Row
deployed_rows marker =
    if is_empty marker
    then []
    else row (txt "Deployed") true (
        txt "v"
        ++ (py_str (get_or marker (txt "package_version") (str (txt "unknown")))
            ++ (txt " from " ++ py_str (get_or marker (txt "package_path") (str (txt "unknown"))))))
      ∷ []

abbrev live_row : Bool → Row
live_row live =
    row (txt "Live diagnosis") live
      (if live then txt "available (make live-smoke)" else txt "needs install + Node/Pi + API key")

-- The rows of `cmd_doctor`.
unfoldable pub doctor_rows : Machine → Status → List Row
unfolding node_ok node_doctor_detail skills_ok source_label conflict_label comma_list
    live_diagnosis_available is_newer_version get_or py_str decimal txt
doctor_rows machine s =
    row (txt "Package") true
      (machine.version ++ given_text machine.latest [] (λ v. txt " (latest " ++ (v ++ txt ")")))
    ∷ pypi_row machine.latest machine.version
    ∷ row (txt "Node") (node_ok machine.node_triple) (node_doctor_detail machine)
    ∷ pi_row machine
    ∷ install_row machine s
    ∷ skills_row machine s
    ∷ row (txt "httpmon") (found_text machine.httpmon)
        (given_text machine.httpmon (txt "not found") (λ v. v))
    ∷ source_row s.key_source
    ∷ conflict_rows s.conflict (
        live_row (live_diagnosis_available machine s)
        ∷ row (txt "Default model") true s.default_model
        ∷ deployed_rows s.marker)
