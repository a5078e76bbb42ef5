-- ===== src/Cli/Skills/Mirror.antt =====
-- The skills directory after the packs are copied.
use storageops.Base.{
  if◌then◌else◌, ◌≡◌, refl, ◌∙◌, sym, ap, Bool, true, false, not, Option, none, some, [], ◌∷◌, all,
  keep, sort_by, Text, arith, Bool-cases, Option-cases, inl, inr,
}
use storageops.Base.Dict.{lookup, contains, lookup-contains}
use storageops.Cli.World.{Node, Listing, Agent}
use storageops.Cli.Settings.{done}
use storageops.Cli.Skills.{
  Package, is_pack, sorted_packs, is_stale, stale_in, unexpected_skills, copy_packs, remove_stale,
  mirror_packs, entries_of, skills_left, copy_skills,
}
use storageops.Cli.Skills.Listings.{
  unique, unique-keep, all-sort_by, kept, lookup-keep, lookup-none-contains, unique-sort_by,
  lookup-sort_by,
}
use storageops.Cli.Skills.Copying.{
  NoPlainPack, AllPacks, copy_packs-done, copy_packs-unique, or_else, copy_packs-lookup,
}

-- What a mirror of the packs has under a name: the pack, else the old entry unless it is a pack.
abbrev pub mirrored : Option Node → Text → Option Node → Option Node
mirrored (some pack) name old = some pack
mirrored none name none = none
mirrored none name (some node) = if is_pack (name, node) then none else some node

kept_missing :
    (bundled : Listing) (k : Text) (old : Option Node)
    → contains bundled k ≡ false
    → kept (λ e. not (is_stale bundled e)) k old ≡ mirrored none k old
kept_missing bundled k none h = refl
kept_missing bundled k (some node) h = rw h (ground arith)

kept-mirrored :
    (bundled : Listing) (k : Text) (old : Option Node)
    → kept (λ e. not (is_stale bundled e)) k (or_else (lookup bundled k) old)
      ≡ mirrored (lookup bundled k) k old
kept-mirrored bundled k old = elim (Option-cases (lookup bundled k)) [
  | inl n ↦ rw n (kept_missing bundled k old (lookup-none-contains bundled k n))
  | inr (node, e) ↦ rw e (ground (arith, lookup-contains bundled k node e))
]

remove_stale_done :
    (bundled : Listing) (p : Listing × Bool)
    → p.1 ≡ false
    → remove_stale bundled p ≡ (keep (λ e. not (is_stale bundled e)) p.0, false)
remove_stale_done bundled (entries, true) h = absurd cc
remove_stale_done bundled (entries, false) h = refl

module _ (bundled entries : Listing) (ub : unique bundled ≡ true) (ue : unique entries ≡ true)
    (packs : AllPacks bundled) (free : NoPlainPack entries) where
  mirror_packs_eq :
      mirror_packs bundled entries
      ≡ (keep (λ e. not (is_stale bundled e)) (copy_packs bundled entries).0, false)
  unfolding mirror_packs
  mirror_packs_eq =
      remove_stale_done bundled (copy_packs bundled entries)
        (copy_packs-done bundled entries packs free)

  mirror_packs-lookup :
      (k : Text)
      → lookup (mirror_packs bundled entries).0 k ≡ mirrored (lookup bundled k) k (lookup entries k)
  mirror_packs-lookup k =
      ap (λ p. lookup p.0 k) mirror_packs_eq
      ∙ lookup-keep _ (copy_packs bundled entries).0 k (copy_packs-unique bundled entries ue)
      ∙ ap (kept (λ e. not (is_stale bundled e)) k)
          (copy_packs-lookup bundled entries k ub (copy_packs-done bundled entries packs free))
      ∙ kept-mirrored bundled k (lookup entries k)

keep_drop :
    (q : Text × Node → Bool) (e : Text × Node) (d : Listing)
    → q e ≡ false
    → keep q (e ∷ d) ≡ keep q d
unfolding keep
keep_drop q e d h = ground (arith, h)

keep_take :
    (q : Text × Node → Bool) (e : Text × Node) (d : Listing)
    → q e ≡ true
    → keep q (e ∷ d) ≡ e ∷ keep q d
unfolding keep
keep_take q e d h = ground (arith, h)

keep_again : (q : Text × Node → Bool) (d : Listing) → keep q (keep (λ e. not (q e)) d) ≡ []
unfolding keep
keep_again q [] = refl
keep_again q (e ∷ d) = elim (Bool-cases (q e)) [
  | inl y ↦ ap (keep q) (keep_drop (λ e. not (q e)) e d (ap not y)) ∙ keep_again q d
  | inr n ↦
      ap (keep q) (keep_take (λ e. not (q e)) e d (ap not n)) ∙ keep_drop q e _ n ∙ keep_again q d
]

stale_in-none :
    (bundled entries : Listing)
    → keep (is_stale bundled) entries ≡ []
    → stale_in bundled (some entries) ≡ []
unfolding sort_by
stale_in-none [] entries h = refl
stale_in-none (pack ∷ packs) entries h = rw h refl

all-keep : (q : Text × Node → Bool) (d : Listing) → all q (keep q d) ≡ true
unfolding all keep
all-keep q [] = refl
all-keep q (e ∷ d) = ground (arith, all-keep q d)

module _ (packs : Listing) (u : unique packs ≡ true) where
  sorted_packs-unique : unique (sorted_packs packs) ≡ true
  unfolding sorted_packs
  sorted_packs-unique = unique-sort_by _ (keep is_pack packs) (unique-keep is_pack packs u)

  sorted_packs-lookup : (k : Text) → lookup (sorted_packs packs) k ≡ kept is_pack k (lookup packs k)
  unfolding sorted_packs
  sorted_packs-lookup k =
      lookup-sort_by _ (keep is_pack packs) k (unique-keep is_pack packs u)
      ∙ lookup-keep is_pack packs k u

  sorted_packs-AllPacks : AllPacks (sorted_packs packs)
  unfolding sorted_packs
  sorted_packs-AllPacks = all-sort_by _ is_pack (keep is_pack packs) ∙ all-keep is_pack packs

-- Copying the skills of a package, with different names in both directories and no plain file
-- named like a pack: it ends without an error, the directory then has under each name the package's
-- folder, if that is a storageops- folder, and else what it had, unless that was one; and none is
-- reported as unexpected.
pub copy_skills_mirrors :
    (shipped : Package) (packs : Listing) (agent : Agent)
    → shipped.packs ≡ some packs
    → unique packs ≡ true
    → unique (entries_of agent.skills) ≡ true
    → NoPlainPack (entries_of agent.skills)
    → (entries : Listing) × (copy_skills shipped agent
        ≡ done (record agent { skills = some entries }))
      × ((k : Text)
          → lookup entries k
            ≡ mirrored (kept is_pack k (lookup packs k)) k (lookup (entries_of agent.skills) k))
      × (unexpected_skills shipped (some entries) ≡ [])
unfolding copy_skills unexpected_skills
copy_skills_mirrors shipped packs agent h up ue free =
    let sorted = sorted_packs packs in
    let old = entries_of agent.skills in
    let us = sorted_packs-unique packs up in
    let a = sorted_packs-AllPacks packs up in
    let result = mirror_packs_eq sorted old us ue a free in
    (
      keep (λ e. not (is_stale sorted e)) (copy_packs sorted old).0,
      rw h (ap (skills_left agent) result),
      λ k.
          sym (ap (λ p. lookup p.0 k) result)
          ∙ mirror_packs-lookup sorted old us ue a free k
          ∙ ap (λ o. mirrored o k (lookup old k)) (sorted_packs-lookup packs up k),
      rw h (stale_in-none sorted _ (keep_again (is_stale sorted) (copy_packs sorted old).0)),
    )
