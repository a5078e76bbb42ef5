-- ===== src/Cli/Settings/Merging.antt =====
-- What a merge into settings.json keeps and what it writes.
use storageops.Base.{
  ◌≡◌, refl, ◌∙◌, sym, ap, true, false, ◌||◌, Option, none, some, List, [], ◌∷◌, member, Text, txt,
  ◌===◌, ===_iff, ===_refl, arith, Bool-cases, inl, inr,
}
use storageops.Json.{Json, bool, str, arr, obj, nil, cons, Fields, end, field, get, has}
use storageops.Cli.World.{document, Agent}
use storageops.Cli.Settings.{
  put, texts, settings_doc, merge_skill_paths, merged_settings, Outcome, done, raised, back_up,
  merge_into, existing_settings, merge_settings,
}
use storageops.Cli.Settings.Paths.{
  item_of, listed, merge_skill_paths-member, merge_skill_paths_again,
}

pub get-put : (d : Fields) (k : Text) (v : Json) → get (put d k v) k ≡ v
unfolding get put
get-put end k v = ground (arith, ===_refl k)
get-put (field j w d) k v = ground (arith, get-put d k v)

pub get-put_ne :
    (d : Fields) (j k : Text) (v : Json) → (k === j) ≡ false → get (put d k v) j ≡ get d j
unfolding get put
get-put_ne end j k v h = ground arith
get-put_ne (field i w d) j k v h = elim (Bool-cases (i === k)) [
  | inl e ↦ rw e (rw (ap (λ x. x === j) ((===_iff i k).0 e) ∙ h) refl)
  | inr n ↦ ground (arith, get-put_ne d j k v h)
]

pub has-put_ne :
    (d : Fields) (j k : Text) (v : Json) → (k === j) ≡ false → has (put d k v) j ≡ has d j
unfolding has put
has-put_ne end j k v h = ground arith
has-put_ne (field i w d) j k v h = elim (Bool-cases (i === k)) [
  | inl e ↦ rw e refl
  | inr n ↦ ground (arith, has-put_ne d j k v h)
]

-- Writing a key twice is writing it once.
put-put : (d : Fields) (k : Text) (v w : Json) → put (put d k v) k w ≡ put d k w
unfolding put
put-put end k v w = ground (arith, ===_refl k)
put-put (field j x d) k v w = ground (arith, put-put d k v w)

put-get : (d : Fields) (k : Text) → has d k ≡ true → put d k (get d k) ≡ d
unfolding put get has
put-get end k h = absurd (ground arith)
put-get (field j x d) k h = ground (arith, put-get d k)

has-put : (d : Fields) (k : Text) (v : Json) → has (put d k v) k ≡ true
unfolding has put
has-put end k v = ground (arith, ===_refl k)
has-put (field j x d) k v = ground (arith, has-put d k v)

abbrev pub own_path : Json
own_path = arr (cons (str (txt "../skills")) nil)

merged_eq :
    (d : Fields)
    → merged_settings d
      ≡ put
          (put d (txt "skills") (arr (texts (merge_skill_paths (get d (txt "skills")) own_path))))
          (txt "enableSkillCommands")
          (bool true)
unfolding merged_settings get settings_doc ◌===◌
merged_eq d = refl

two_keys : (txt "enableSkillCommands" === txt "skills") ≡ false
unfolding ◌===◌ txt
two_keys = refl

skills_of_merged :
    (d : Fields)
    → get (merged_settings d) (txt "skills")
      ≡ arr (texts (merge_skill_paths (get d (txt "skills")) own_path))
skills_of_merged d =
    ap (λ x. get x (txt "skills")) (merged_eq d)
    ∙ get-put_ne _ (txt "skills") (txt "enableSkillCommands") (bool true) two_keys
    ∙ get-put d (txt "skills") _

merged_has_skills : (d : Fields) → has (merged_settings d) (txt "skills") ≡ true
merged_has_skills d =
    ap (λ x. has x (txt "skills")) (merged_eq d)
    ∙ has-put_ne _ (txt "skills") (txt "enableSkillCommands") (bool true) two_keys
    ∙ has-put d (txt "skills") _

merged_settings_again : (d : Fields) → merged_settings (merged_settings d) ≡ merged_settings d
merged_settings_again d =
    let m = merged_settings d in
    let skills = get m (txt "skills") in
    let paths = merge_skill_paths (get d (txt "skills")) own_path in
    let same : arr (texts (merge_skill_paths skills own_path)) ≡ skills =
      ap (λ x. arr (texts (merge_skill_paths x own_path))) (skills_of_merged d)
      ∙ ap (λ ts. arr (texts ts)) (merge_skill_paths_again (txt "../skills") (get d (txt "skills")))
      ∙ sym (skills_of_merged d) in
    merged_eq m
    ∙ ap (λ x. put (put m (txt "skills") x) (txt "enableSkillCommands") (bool true)) same
    ∙ ap (λ x. put x (txt "enableSkillCommands") (bool true))
        (put-get m (txt "skills") (merged_has_skills d))
    ∙ ap (λ x. put x (txt "enableSkillCommands") (bool true)) (merged_eq d)
    ∙ put-put _ (txt "enableSkillCommands") (bool true) (bool true)
    ∙ sym (merged_eq d)

listed-texts : (t : Text) (ts : List Text) → listed t (arr (texts ts)) ≡ member t ts
unfolding listed item_of texts member
listed-texts t [] = refl
listed-texts t (s ∷ ts) = ground (arith, listed-texts t ts)

-- Where settings.json holds an object, a merge keeps a copy of the file as it was, every field but
-- `skills` and `enableSkillCommands`, and as skill paths the texts that were listed and `../skills`.
pub merge_settings_keeps :
    (agent : Agent) (d : Fields)
    → agent.settings ≡ document (obj d)
    → (d' : Fields) × (merge_settings agent
        ≡ done (record agent { settings = document (obj d'); backup = document (obj d) }))
      × ((k : Text)
          → (txt "skills" === k) ≡ false
          → (txt "enableSkillCommands" === k) ≡ false
          → get d' k ≡ get d k)
      × ((t : Text)
          → listed t (get d' (txt "skills"))
            ≡ (listed t (get d (txt "skills")) || listed t own_path))
unfolding merge_settings existing_settings
merge_settings_keeps agent d h =
    let m = merged_settings d in
    (
      m,
      rw h refl,
      λ k n1 n2.
          ap (λ x. get x k) (merged_eq d) ∙ get-put_ne _ k _ (bool true) n2 ∙ get-put_ne d k _ _ n1,
      λ t.
          ap (listed t) (skills_of_merged d)
          ∙ listed-texts t _
          ∙ (merge_skill_paths-member t (get d (txt "skills")) own_path).0,
    )

abbrev agent_of : Outcome → Agent
agent_of (done agent) = agent
agent_of (raised agent) = agent

merge_document :
    (agent : Agent) (d : Fields)
    → agent.settings ≡ document (obj (merged_settings d))
    → merge_settings agent ≡ done (record agent { backup = agent.settings })
unfolding merge_settings existing_settings
merge_document agent d h =
    let file = document (obj (merged_settings d)) in
    rw h (
      ap (λ x. done (record agent { settings = document (obj x); backup = file }))
        (merged_settings_again d))

merge_into-twice :
    (agent agent' : Agent) (o : Option Fields)
    → merge_into agent o ≡ done agent'
    → merge_settings agent' ≡ done (record agent' { backup = agent'.settings })
merge_into-twice agent agent' none h = absurd cc
merge_into-twice agent agent' (some d) h =
    merge_document agent' d (ap (λ x. (agent_of x).settings) (sym h))

-- A merge that does not raise can be repeated: the second one writes the settings that are there,
-- and its copy is the merged file.
pub merge_settings_twice :
    (agent agent' : Agent)
    → merge_settings agent ≡ done agent'
    → merge_settings agent' ≡ done (record agent' { backup = agent'.settings })
unfolding merge_settings
merge_settings_twice agent agent' h =
    merge_into-twice (back_up agent) agent' (existing_settings agent.settings) h
