-- ===== src/Cli/Skills.antt =====
-- The files of the package and of an agent directory: `_copy_extension`, `_copy_skills`,
-- `_count_storageops_skills`, `_bundled_skill_names`, `_unexpected_skills`.
pub mod Listings
pub mod Copying
pub mod Mirror
use storageops.Base.{
  ℕ, ◌+◌, if◌then◌else◌, Bool, true, false, not, ◌&&◌, ◌||◌, Option, none, some, List, [], ◌∷◌,
  ◌++◌, any, map, keep, length, Text, txt, ◌===◌, starts_with, ends_with, sort_by,
}
use storageops.Base.Dict.{Dict, contains, insert}
use storageops.Cli.World.{Node, plain, folder, Listing, Agent}
use storageops.Cli.Versions.{tuple_lt}
use storageops.Cli.Settings.{Outcome, done, raised}

-- What the package carries: its files under extensions/ and the entries of its skills/.
pub record Package : Type 0 where
  pub ext_files : Dict Text
  pub packs : Option Listing

-- The order of Python's texts.
unfoldable pub text_le : Text → Text → Bool
unfolding tuple_lt
text_le s t = not (tuple_lt t s)

unfoldable pub is_pack : Text × Node → Bool
unfolding starts_with txt
is_pack (name, plain content) = false
is_pack (name, folder content) = starts_with (txt "storageops-") name

unfoldable pub count_storageops_skills : Option Listing → ℕ
unfolding keep is_pack
count_storageops_skills none = 0
count_storageops_skills (some entries) = length (keep is_pack entries)

-- `sorted(bundled)`, each name with its folder.
unfoldable pub sorted_packs : Listing → Listing
unfolding keep is_pack sort_by text_le
sorted_packs entries = sort_by (λ (i, x) (j, y). text_le i j) (keep is_pack entries)

abbrev bundled_packs : Option Listing → Listing
bundled_packs none = []
bundled_packs (some entries) = sorted_packs entries

unfoldable pub expected_skill_count : Package → ℕ
unfolding sorted_packs
expected_skill_count shipped = length (bundled_packs shipped.packs)

abbrev is_stale : Listing → Text × Node → Bool
is_stale bundled entry = is_pack entry && not (contains bundled entry.0)

abbrev stale_in : Listing → Option Listing → List Text
stale_in bundled none = []
stale_in [] (some entries) = []
stale_in (pack ∷ packs) (some entries) =
    sort_by text_le (map (λ e. e.0) (keep (is_stale (pack ∷ packs)) entries))

-- The skills directory first.
unfoldable pub unexpected_skills : Package → Option Listing → List Text
unfolding sorted_packs sort_by keep is_pack contains text_le
unexpected_skills shipped entries = stale_in (bundled_packs shipped.packs) entries

-- `rmtree` of a plain file raises.
unfoldable pub blocked : Listing → Text → Bool
blocked [] name = false
blocked ((i, plain content) ∷ entries) name = i === name || blocked entries name
blocked ((i, folder content) ∷ entries) name = if i === name then false else blocked entries name

-- The packs copied one by one, each in place of what has its name, up to one that raises.
unfoldable pub copy_packs : Listing → Listing → Listing × Bool
unfolding insert blocked
copy_packs [] entries = (entries, false)
copy_packs ((name, pack) ∷ packs) entries =
    let later = copy_packs packs (insert entries name pack) in
    if blocked entries name then (entries, true) else later

abbrev remove_stale : Listing → Listing × Bool → Listing × Bool
remove_stale bundled (entries, true) = (entries, true)
remove_stale bundled (entries, false) = (keep (λ e. not (is_stale bundled e)) entries, false)

unfoldable pub mirror_packs : Listing → Listing → Listing × Bool
unfolding copy_packs contains is_pack keep
mirror_packs bundled entries = remove_stale bundled (copy_packs bundled entries)

abbrev pub entries_of : Option Listing → Listing
entries_of none = []
entries_of (some entries) = entries

abbrev skills_left : Agent → Listing × Bool → Outcome
skills_left agent (entries, true) = raised (record agent { skills = some entries })
skills_left agent (entries, false) = done (record agent { skills = some entries })

unfoldable pub copy_skills : Package → Agent → Outcome
unfolding sorted_packs mirror_packs
copy_skills shipped agent = elim shipped.packs [
  | none ↦ done agent
  | some entries ↦ skills_left agent (mirror_packs (sorted_packs entries) (entries_of agent.skills))
]

abbrev pub insert_all : Dict Text → Dict Text → Dict Text
insert_all [] entries = entries
insert_all ((name, content) ∷ files) entries = insert_all files (insert entries name content)

-- `sorted(ext_src.glob("*.ts"))`
unfoldable pub ts_files : Package → Dict Text
unfolding keep ends_with txt sort_by text_le
ts_files shipped =
    sort_by (λ (i, x) (j, y). text_le i j) (keep (λ e. ends_with (txt ".ts") e.0) shipped.ext_files)

-- Without storageops.ts the command ends before it copies anything.
unfoldable pub copy_extension : Package → Agent → Outcome
unfolding ts_files contains insert txt
copy_extension shipped agent =
    if contains (ts_files shipped) (txt "storageops.ts")
    then done (record agent { extensions = insert_all (ts_files shipped) agent.extensions })
    else raised agent
