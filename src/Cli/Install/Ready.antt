-- ===== src/Cli/Install/Ready.antt =====
-- An independent install that goes through.
use storageops.Base.{
  if◌then◌else◌, ◌≡◌, refl, ◌∙◌, ap, Bool, true, false, ◌||◌, Option, some, [], ◌∷◌, Text, txt,
  arith,
}
use storageops.Base.Dict.{Dict, contains, insert}
use storageops.Json.{obj}
use storageops.Cli.World.{document, Listing, Agent, Home, is_installed}
use storageops.Cli.Pi.{ensure_pi}
use storageops.Cli.Settings.{done, write_settings, settings_doc}
use storageops.Cli.Skills.{
  Package, entries_of, insert_all, ts_files, copy_extension, copy_skills, unexpected_skills,
}
use storageops.Cli.Skills.Listings.{unique, contains-insert}
use storageops.Cli.Skills.Copying.{NoPlainPack}
use storageops.Cli.Skills.Mirror.{copy_skills_mirrors}
use storageops.Cli.Install.{
  own_agent, Setting, agent_at, put_agent, detect_existing_pi, deploy_to, plan_install, and_then,
  install_marker, deploy, final_check, after_deploy, carry_out, cmd_install,
}

insert_all-contains :
    (files entries : Dict Text) (k : Text)
    → (contains files k || contains entries k) ≡ true
    → contains (insert_all files entries) k ≡ true
unfolding contains
insert_all-contains [] entries k h = h
insert_all-contains ((name, content) ∷ files) entries k h =
    insert_all-contains files (insert entries name content) k
      (ground (arith, contains-insert entries k name content))

copy_extension_done :
    (shipped : Package) (agent : Agent)
    → contains (ts_files shipped) (txt "storageops.ts") ≡ true
    → copy_extension shipped agent
      ≡ done (record agent { extensions = insert_all (ts_files shipped) agent.extensions })
unfolding copy_extension
copy_extension_done shipped agent h = rw h refl

plan_first :
    (force merge : Bool) (answer : Option Text) (home : Home)
    → detect_existing_pi home ≡ false
    → plan_install force merge answer home ≡ deploy_to own_agent
unfolding plan_install
plan_first force true answer home h = rw h refl
plan_first force false answer home h = rw h refl

abbrev deployed_agent : Package → Agent → Listing → Agent
deployed_agent shipped agent entries = record agent {
  settings = document (obj settings_doc);
  extensions = insert_all (ts_files shipped) agent.extensions;
  skills = some entries;
}

deploy_own :
    (shipped : Package) (agent : Agent) (packs : Listing)
    → contains (ts_files shipped) (txt "storageops.ts") ≡ true
    → shipped.packs ≡ some packs
    → unique packs ≡ true
    → unique (entries_of agent.skills) ≡ true
    → NoPlainPack (entries_of agent.skills)
    → (entries : Listing) × (deploy shipped own_agent agent
        ≡ done (deployed_agent shipped agent entries))
      × (unexpected_skills shipped (some entries) ≡ [])
unfolding deploy write_settings
deploy_own shipped agent packs ts some_packs up ue free =
    let extended = record (write_settings agent) {
      extensions = insert_all (ts_files shipped) agent.extensions;
    } in
    let (entries, copied, same, none_left) =
      copy_skills_mirrors shipped packs extended some_packs up ue free in
    (
      entries,
      ap (λ o. and_then o (copy_skills shipped))
            (copy_extension_done shipped (write_settings agent) ts)
          ∙ copied,
      none_left,
    )

deployed_installed :
    (shipped : Package) (agent : Agent) (entries : Listing)
    → contains (ts_files shipped) (txt "storageops.ts") ≡ true
    → is_installed (deployed_agent shipped agent entries) ≡ true
unfolding is_installed
deployed_installed shipped agent entries ts = ground (
  arith,
  insert_all-contains (ts_files shipped) agent.extensions (txt "storageops.ts")
      (ground (arith, ts)),
)

checked :
    (ready : Bool) (agent : Agent)
    → is_installed agent ≡ true
    → final_check ready agent ≡ (if ready then 0 else 1)
unfolding final_check
checked ready agent h = rw h (ground arith)

-- What is on the disk behind a deploy into ~/.storageops/agent with these skills.
abbrev home_behind : Setting → Home → Listing → Home
home_behind setting home entries = record home {
  own = deployed_agent setting.shipped home.own entries;
  marker = document (obj (install_marker setting.facts own_agent));
}

carried_out :
    (force merge : Bool) (setting : Setting) (home : Home) (entries : Listing)
    → detect_existing_pi home ≡ false
    → contains (ts_files setting.shipped) (txt "storageops.ts") ≡ true
    → deploy setting.shipped own_agent home.own
      ≡ done (deployed_agent setting.shipped home.own entries)
    → carry_out setting home (plan_install force merge setting.answer home)
      ≡ (if setting.pi_ready then 0 else 1, home_behind setting home entries)
unfolding put_agent agent_at
carried_out force merge setting home entries new ts deployed =
    ap (carry_out setting home) (plan_first force merge setting.answer home new)
    ∙ ap (after_deploy setting own_agent home) deployed
    ∙ ap (λ code. (code, home_behind setting home entries))
        (checked setting.pi_ready (deployed_agent setting.shipped home.own entries)
          (deployed_installed setting.shipped home.own entries ts))

-- Where ~/.pi holds no settings, the package has storageops.ts and skills with different names, and
-- the skills directory has different names and no plain file named like a pack: an install with any
-- options ends with 1 and leaves everything as it was if `_ensure_pi` ends it, and else ends with 0
-- if Pi is ready at the end and with 1 if not, with StorageOps installed, its settings written, no
-- unexpected skills, and ~/.pi as it was.
pub cmd_install_first :
    (force merge : Bool) (setting : Setting) (home : Home) (packs : Listing)
    → detect_existing_pi home ≡ false
    → contains (ts_files setting.shipped) (txt "storageops.ts") ≡ true
    → setting.shipped.packs ≡ some packs
    → unique packs ≡ true
    → unique (entries_of home.own.skills) ≡ true
    → NoPlainPack (entries_of home.own.skills)
    → (home' : Home) × (cmd_install force merge setting home ≡ (
        if ensure_pi setting.setup then (if setting.pi_ready then 0 else 1, home') else (1, home)))
      × (is_installed home'.own ≡ true)
      × (home'.own.settings ≡ document (obj settings_doc))
      × (unexpected_skills setting.shipped home'.own.skills ≡ [])
      × (home'.pi ≡ home.pi)
unfolding cmd_install
cmd_install_first force merge setting home packs new ts some_packs up ue free =
    let (entries, deployed, none_left) =
      deploy_own setting.shipped home.own packs ts some_packs up ue free in
    (
      home_behind setting home entries,
      ap (λ r. if ensure_pi setting.setup then r else (1, home))
          (carried_out force merge setting home entries new ts deployed),
      deployed_installed setting.shipped home.own entries ts,
      refl,
      none_left,
      refl,
    )
