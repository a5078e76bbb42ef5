-- ===== src/PolicyAnalyzer/Analyze/Clean.antt =====
-- Which policies are reported as clean.
use storageops.Base.{
  ℕ, ◌+◌, ◌==◌, ◌≡◌, refl, ◌∙◌, ap, Bool, true, false, not, ◌&&◌, ◌||◌, List, [], ◌∷◌, ◌++◌, map,
  any, any-append, all, keep, length, member, Text, txt, arith, Bool-cases, inl, inr,
}
use storageops.Base.Try.{returns, ◌>>=◌}
use storageops.Json.{
  Json, null, bool, num, str, arr, obj, Items, nil, cons, Fields, list_of, get_or, items_of, truthy,
  as_dict, iterate,
}
use storageops.PolicyAnalyzer.Statement.{
  unconditioned, condition_key, broad_actions, flatten_statements, wrap_dict, denies, is_public,
  action_set, is_broad_resource, is_broad, broad_flags, Finding, is_issue, when, is_flagged,
  condition_findings, allows, forbids, action_of, resource_of, principal_of, field_of,
  broad_findings, allow_findings, condition_items, check,
}
use storageops.PolicyAnalyzer.Analyze.{check_all, Report, report_of, analyze}

unfoldable pub hashable : Json → Bool
hashable (arr xs) = false
hashable (obj d) = false
hashable _ = true

unfoldable pub is_dict : Json → Bool
is_dict (obj d) = true
is_dict _ = false

-- The actions have a hash, and a condition that is not empty is a mapping.
unfoldable pub readable : Fields → Bool
unfolding txt
readable stmt =
    all hashable (action_set (action_of stmt))
    && (not (truthy (field_of stmt (txt "Condition"))) || is_dict (field_of stmt (txt "Condition")))

unfoldable pub is_broad_text : Json → Bool
unfolding member
is_broad_text (str s) = member s broad_actions
is_broad_text _ = false

-- A statement that does not allow, or that allows named actions to a named principal on named resources.
unfoldable pub harmless : Fields → Bool
unfolding txt
harmless stmt =
    not (allows stmt)
    || (truthy (action_of stmt)
        && not (is_public (principal_of stmt))
        && not (truthy (field_of stmt (txt "NotPrincipal")))
        && not (truthy (field_of stmt (txt "NotAction")))
        && not (is_broad_resource (resource_of stmt))
        && not (any is_broad_text (action_set (action_of stmt))))

is_broad_lem : (a : Json) → hashable a ≡ true → is_broad a ≡ returns (is_broad_text a)
unfolding is_broad is_broad_text hashable
is_broad_lem null h = refl
is_broad_lem (bool b) h = refl
is_broad_lem (num t) h = refl
is_broad_lem (str s) h = refl
is_broad_lem (arr xs) h = absurd cc
is_broad_lem (obj d) h = absurd cc

broad_flags_lem :
    (as' : List Json)
    → all hashable as' ≡ true
    → broad_flags as' ≡ returns (map (λ a. (a, is_broad_text a)) as')
unfolding broad_flags all
broad_flags_lem [] h = refl
broad_flags_lem (a ∷ as') h =
    rw (is_broad_lem a (ground arith), broad_flags_lem as' (ground arith)) refl

dict_items :
    (v : Json)
    → is_dict v ≡ true
    → (items : List (Text × Json)) × ((as_dict v >>= λ d. returns (items_of d)) ≡ returns items)
unfolding is_dict as_dict
dict_items null h = absurd cc
dict_items (bool b) h = absurd cc
dict_items (num t) h = absurd cc
dict_items (str t) h = absurd cc
dict_items (arr xs) h = absurd cc
dict_items (obj d) h = (items_of d, refl)

condition_items_lem :
    (stmt : Fields)
    → (not (truthy (field_of stmt (txt "Condition"))) || is_dict (field_of stmt (txt "Condition")))
      ≡ true
    → (items : List (Text × Json)) × (condition_items stmt ≡ returns items)
unfolding condition_items
condition_items_lem stmt h =
    let condition = field_of stmt (txt "Condition") in
    elim (Bool-cases (truthy condition)) [
      | inl y ↦ let (items, e) = dict_items condition (ground arith) in (items, ground (arith, e))
      | inr n ↦ ([], ground arith)
    ]

broad_findings-issue :
    (i : ℕ) (resource : Json) (as' : List Json)
    → any is_issue (broad_findings i resource (map (λ a. (a, is_broad_text a)) as'))
      ≡ any is_broad_text as'
unfolding any broad_findings is_issue
broad_findings-issue i resource [] = refl
broad_findings-issue i resource (a ∷ as') = ground (arith, broad_findings-issue i resource as')

condition_keys-issue :
    (i : ℕ) (deny : Bool) (op : Text) (action : Json) (items : List (Text × Json))
    → any is_issue (map (λ (k, v). condition_key i deny op k action) items) ≡ false
unfolding any is_issue
condition_keys-issue i deny op action [] = refl
condition_keys-issue i deny op action (e ∷ items) = condition_keys-issue i deny op action items

condition_findings-issue :
    (i : ℕ) (deny : Bool) (action : Json) (items : List (Text × Json))
    → any is_issue (condition_findings i deny action items) ≡ false
unfolding any condition_findings is_issue
condition_findings-issue i deny action [] = refl
condition_findings-issue i deny action ((op, obj m) ∷ more) =
    any-append is_issue (map (λ (k, v). condition_key i deny op k action) (items_of m))
      (condition_findings i deny action more)
    ∙ rw
        (
          condition_keys-issue i deny op action (items_of m),
          condition_findings-issue i deny action more,
        )
        refl
condition_findings-issue i deny action ((op, null) ∷ more) =
    condition_findings-issue i deny action more
condition_findings-issue i deny action ((op, bool b) ∷ more) =
    condition_findings-issue i deny action more
condition_findings-issue i deny action ((op, num t) ∷ more) =
    condition_findings-issue i deny action more
condition_findings-issue i deny action ((op, str t) ∷ more) =
    condition_findings-issue i deny action more
condition_findings-issue i deny action ((op, arr xs) ∷ more) =
    condition_findings-issue i deny action more

module _ (i : ℕ) (stmt : Fields) (items : List (Text × Json)) where
  abbrev flags : List (Json × Bool)
  flags = map (λ a. (a, is_broad_text a)) (action_set (action_of stmt))

  -- The findings behind the one on the resource.
  abbrev rest : List Finding
  rest =
      broad_findings i (resource_of stmt) flags
      ++ (condition_findings i false (action_of stmt) items
          ++ when (not (truthy (field_of stmt (txt "Condition"))) && any is_flagged flags)
              (unconditioned i (resource_of stmt)))

  rest-issue : any is_issue rest ≡ any is_broad_text (action_set (action_of stmt))
  unfolding any is_issue
  rest-issue =
      let broad = broad_findings i (resource_of stmt) flags in
      let keyed = condition_findings i false (action_of stmt) items in
      let last =
        when (not (truthy (field_of stmt (txt "Condition"))) && any is_flagged flags)
          (unconditioned i (resource_of stmt)) in
      any-append is_issue broad (keyed ++ last)
      ∙ ground (
        arith,
        broad_findings-issue i (resource_of stmt) (action_set (action_of stmt)),
        any-append is_issue keyed last,
        condition_findings-issue i false (action_of stmt) items,
      )

  allow_findings-issue :
      allows stmt ≡ true → any is_issue (allow_findings i stmt flags items) ≡ not (harmless stmt)
  unfolding allow_findings is_issue harmless any
  allow_findings-issue h = ground (arith, rest-issue, h)

check-issue :
    (i : ℕ) (stmt : Fields)
    → readable stmt ≡ true
    → (fs : List Finding) × (check i stmt ≡ returns fs) × (any is_issue fs ≡ not (harmless stmt))
unfolding check readable any harmless is_issue
check-issue i stmt h =
    let (items, e) = condition_items_lem stmt (ground arith) in
    let f = broad_flags_lem (action_set (action_of stmt)) (ground arith) in
    elim (Bool-cases (allows stmt)) [
      | inl y ↦ (
        allow_findings i stmt (flags i stmt items) items,
        rw (y, f, e) refl,
        allow_findings-issue i stmt items y,
      )
      | inr n ↦ elim (Bool-cases (forbids stmt)) [
        | inl z ↦ (
          denies i (resource_of stmt) (flags i stmt items)
              ∷ condition_findings i true (action_of stmt) items,
          rw (n, z, f, e) refl,
          condition_findings-issue i true (action_of stmt) items ∙ ground (arith, n),
        )
        | inr z ↦ ([], rw (n, z) refl, ground (arith, n))
      ]
    ]

abbrev pub objects : List Fields → Items
objects [] = nil
objects (d ∷ ds) = cons (obj d) (objects ds)

check_all-issue :
    (i : ℕ) (stmts : List Fields)
    → all readable stmts ≡ true
    → (fs : List Finding) × (check_all i (list_of (objects stmts)) ≡ returns fs)
      × (any is_issue fs ≡ not (all harmless stmts))
unfolding check_all list_of all any as_dict readable
check_all-issue i [] h = ([], refl, refl)
check_all-issue i (stmt ∷ stmts) h =
    let (fs, e, k) = check-issue i stmt (ground arith) in
    let (gs, f, l) = check_all-issue (i + 1) stmts (ground arith) in
    (fs ++ gs, rw (e, f) refl, any-append is_issue fs gs ∙ ground (arith, k, l))

length-keep : (fs : List Finding) → (length (keep is_issue fs) == 0) ≡ not (any is_issue fs)
unfolding keep any
length-keep [] = refl
length-keep (f ∷ fs) = ground (arith, length-keep fs)

-- For a policy whose statements are a list of objects, in which actions are no lists or mappings and a
-- condition that is not empty is a mapping, the analyzer returns a report, and the report says ok
-- exactly when every statement is harmless: it does not allow, or it has an action, none of the broad
-- ones, a principal that is not public, no NotPrincipal, no NotAction, and no resource *.
pub analyze-harmless :
    (doc : Fields) (stmts : List Fields)
    → get_or doc (txt "Statement") (arr nil) ≡ arr (objects stmts)
    → all readable stmts ≡ true
    → (r : Report) × (analyze doc ≡ returns r) × (r.ok ≡ all harmless stmts)
unfolding analyze report_of flatten_statements wrap_dict iterate
analyze-harmless doc stmts given h =
    let (fs, e, k) = check_all-issue 1 stmts h in
    let found =
      ap (λ v. iterate (wrap_dict v) >>= λ vs. check_all 1 vs >>= λ gs. returns (report_of gs))
        given in
    (report_of fs, found ∙ rw e refl, length-keep fs ∙ ground (arith, k))
