-- ===== src/Cli/Skills/Copying.antt =====
-- The packs copied one by one.
use storageops.Base.{
  ◌≡◌, refl, ◌∙◌, sym, ap, true, false, Option, none, some, [], ◌∷◌, all, Text, txt, ◌===◌, ===_iff,
  starts_with, arith, Bool-cases, inl, inr,
}
use storageops.Base.Dict.{
  lookup, contains, insert, lookup-insert_self, lookup-insert_ne, contains-lookup-none,
}
use storageops.Cli.World.{Node, plain, folder, Listing}
use storageops.Cli.Skills.{is_pack, blocked, copy_packs}
use storageops.Cli.Skills.Listings.{unique, unique-insert}

-- No plain file has a name of a pack.
abbrev pub NoPlainPack : Listing → Type 0
NoPlainPack entries =
    (name : Text) → starts_with (txt "storageops-") name ≡ true → blocked entries name ≡ false

abbrev pub AllPacks : Listing → Type 0
AllPacks packs = all is_pack packs ≡ true

blocked-insert :
    (entries : Listing) (name k content : Text)
    → blocked entries k ≡ false
    → blocked (insert entries name (folder content)) k ≡ false
unfolding blocked insert
blocked-insert [] name k content h = ground arith
blocked-insert ((i, plain text) ∷ entries) name k content h = elim (Bool-cases (i === name)) [
  | inl y ↦ rw y (ground arith)
  | inr n ↦ rw n (ground (arith, blocked-insert entries name k content (ground arith)))
]
blocked-insert ((i, folder text) ∷ entries) name k content h = elim (Bool-cases (i === k)) [
  | inl y ↦ elim (Bool-cases (i === name)) [
    | inl m ↦ rw m (ground arith)
    | inr n ↦ rw n (ground arith)
  ]
  | inr n ↦ elim (Bool-cases (i === name)) [
    | inl m ↦ rw m (ground arith)
    | inr l ↦ rw l (ground (arith, blocked-insert entries name k content (ground arith)))
  ]
]

-- Where no plain file is in the way, every pack is copied.
pub copy_packs-done :
    (packs entries : Listing)
    → AllPacks packs
    → NoPlainPack entries
    → (copy_packs packs entries).1 ≡ false
unfolding copy_packs all is_pack
copy_packs-done [] entries a free = refl
copy_packs-done ((name, plain content) ∷ packs) entries a free = absurd (ground arith)
copy_packs-done ((name, folder content) ∷ packs) entries a free =
    let way : blocked entries name ≡ false = free name (ground arith) in
    rw way (
      copy_packs-done packs (insert entries name (folder content)) (ground arith)
        (λ k p. blocked-insert entries name k content (free k p)))

pub copy_packs-unique :
    (packs entries : Listing) → unique entries ≡ true → unique (copy_packs packs entries).0 ≡ true
unfolding copy_packs
copy_packs-unique [] entries u = u
copy_packs-unique ((name, pack) ∷ packs) entries u = elim (Bool-cases (blocked entries name)) [
  | inl y ↦ rw y u
  | inr n ↦
      rw n (copy_packs-unique packs (insert entries name pack) (unique-insert entries name pack u))
]

abbrev pub or_else : Option Node → Option Node → Option Node
or_else (some node) other = some node
or_else none other = other

pub copy_packs-lookup :
    (packs entries : Listing) (k : Text)
    → unique packs ≡ true
    → (copy_packs packs entries).1 ≡ false
    → lookup (copy_packs packs entries).0 k ≡ or_else (lookup packs k) (lookup entries k)
unfolding copy_packs lookup unique
copy_packs-lookup [] entries k u h = refl
copy_packs-lookup ((name, pack) ∷ packs) entries k u h = elim (Bool-cases (blocked entries name)) [
  | inl y ↦ absurd (ground (arith, y))
  | inr n ↦
      let later = copy_packs-lookup packs (insert entries name pack) k (ground arith) (rw n at h) in
      elim (Bool-cases (name === k)) [
        | inl y ↦
            let e = (===_iff name k).0 y in
            let gone = contains-lookup-none packs k (ap (contains packs) (sym e) ∙ ground arith) in
            rw (n, y)
              (later
                ∙ ap (λ o. or_else o (lookup (insert entries name pack) k)) gone
                ∙ ap (lookup (insert entries name pack)) (sym e)
                ∙ lookup-insert_self entries name pack)
        | inr m ↦
            rw (n, m)
              (later ∙ ap (or_else (lookup packs k)) (lookup-insert_ne entries k name pack m))
      ]
]
