-- ===== src/Cli/Evaluation.antt =====
-- `storageops eval`: `cmd_eval`. The scripts that it starts are a parameter, and what it prints is
-- left out.
use storageops.Base.{
  ℕ, if◌then◌else◌, Bool, not, ◌||◌, Option, none, some, List, [], ◌∷◌, ◌++◌, member, Text, txt,
  starts_with,
}
use storageops.Cli.Configure.{option_value, has_flag}

-- The golden cases, for names that are relative paths: whether the package's data is there and has cases, the directory, which names
-- under cases/ hold an expected.json, the Python program, and the exit code of a command.
pub record Corpus : Type 0 where
  pub located : Bool
  pub has_cases : Bool
  pub dir : Text
  pub is_case : Text → Bool
  pub python : Text
  pub run : List Text → ℕ

-- The first argument that is no flag.
unfoldable pub case_name : List Text → Option Text
unfolding starts_with txt
case_name [] = none
case_name (arg ∷ args) = if starts_with (txt "-") arg then case_name args else some arg

unfoldable pub baselines_command : Corpus → List Text
unfolding txt
baselines_command corpus =
    corpus.python
    ∷ (corpus.dir ++ txt "/scripts/eval_all.py")
    ∷ txt "--cases"
    ∷ (corpus.dir ++ txt "/cases")
    ∷ txt "--outputs"
    ∷ (corpus.dir ++ txt "/baseline-outputs")
    ∷ txt "--only-with-outputs"
    ∷ []

unfoldable pub case_command : Corpus → Text → Text → List Text
unfolding txt
case_command corpus name output =
    corpus.python
    ∷ (corpus.dir ++ txt "/scripts/eval_runner.py")
    ∷ txt "--case"
    ∷ (corpus.dir ++ (txt "/cases/" ++ name))
    ∷ txt "--output"
    ∷ output
    ∷ []

abbrev eval_case : Corpus → Option Text → Option Text → ℕ
eval_case corpus (some (c ∷ name)) (some (o ∷ output)) =
    if corpus.is_case (c ∷ name)
    then corpus.run (case_command corpus (c ∷ name) (o ∷ output))
    else 1
eval_case corpus name output = 2

-- `cmd_eval`: the exit code.
unfoldable pub cmd_eval : Corpus → List Text → ℕ
unfolding member has_flag option_value case_name baselines_command case_command txt
cmd_eval corpus args =
    if member (txt "--help") args || member (txt "-h") args
    then 0
    else if not corpus.located || not corpus.has_cases
    then 1
    else if has_flag args (txt "--list")
    then 0
    else if has_flag args (txt "--baselines")
    then corpus.run (baselines_command corpus)
    else eval_case corpus (case_name args) (option_value args (txt "--output"))
