-- ===== src/CrossAccount/Link.antt =====
-- `evaluate_link`: one policy, explicit Deny over explicit Allow over implicit Deny.
pub mod Laws
use Prim.Native.String.{String}
use storageops.Base.{
  ℕ, suc, ◌+◌, if◌then◌else◌, Bool, true, false, not, ◌&&◌, ◌||◌, Option, none, some, List, [], ◌∷◌,
  ◌++◌, Text, txt, ◌===◌, lower, decimal,
}
use storageops.Json.{Json, null, bool, num, str, arr, obj, Fields, get_or, py_str}
use storageops.CrossAccount.Statement.{
  action_matches, resource_matches, principal_matches, has_condition,
}

pub data Result : Type 0 where
  explicit_deny allow implicit_deny not_provided : Result

-- The dict that `evaluate_link` returns.
pub record Evaluation : Type 0 where
  pub result : Result
  pub matched_sid : Json
  pub conditional : Bool
  pub not_clause : Bool

-- `allow_hit`, which is None until a statement allows, with `conditional` and `allow_not`.
pub record Hit : Type 0 where
  pub allow_hit : Json
  pub conditional : Bool
  pub allow_not : Bool

unfoldable pub is_none : Json → Bool
is_none null = true
is_none _ = false

unfoldable pub effect_is : String → Fields → Bool
unfolding ◌===◌ lower py_str get_or txt
effect_is name stmt = lower (py_str (get_or stmt (txt "Effect") (str []))) === txt name

unfoldable pub sid_of : Fields → ℕ → Json
unfolding get_or txt decimal
sid_of stmt i = get_or stmt (txt "Sid") (str (txt "statement#" ++ decimal i))

-- A statement that allows, when no statement has been recorded yet.
unfoldable pub record_allow : Hit → Fields → ℕ → Bool → Hit
record_allow h stmt i used_not =
    if effect_is "allow" stmt && is_none h.allow_hit
    then record {
      allow_hit = sid_of stmt i;
      conditional = has_condition stmt;
      allow_not = used_not;
    }
    else h

unfoldable pub conclude : Hit → Evaluation
conclude h =
    if is_none h.allow_hit
    then record {
      result = implicit_deny;
      matched_sid = null;
      conditional = false;
      not_clause = false;
    }
    else record {
      result = allow;
      matched_sid = h.allow_hit;
      conditional = h.conditional;
      not_clause = h.allow_not;
    }

module _ (action resource principal_arn : Text) (match_principal : Bool) where
  -- Whether a statement applies, and if so whether an inverted element made it.
  unfoldable pub applicability : Fields → Option Bool
  applicability stmt =
      let (a_match, a_not) = action_matches stmt action in
      let (r_match, r_not) = resource_matches stmt resource in
      let (p_match, p_not) = principal_matches stmt principal_arn in
      if not a_match
      then none
      else if not r_match
      then none
      else if match_principal
      then (if not p_match then none else some (a_not || r_not || p_not))
      else some (a_not || r_not)

  -- The loop over the statements from number `i` on.
  unfoldable pub evaluate_loop : List Fields → ℕ → Hit → Evaluation
  evaluate_loop [] i h = conclude h
  evaluate_loop (stmt ∷ rest) i h = elim (applicability stmt) [
    | none ↦ evaluate_loop rest (i + 1) h
    | some used_not ↦
        let onward = evaluate_loop rest (i + 1) (record_allow h stmt i used_not) in
        if effect_is "deny" stmt
        then record {
          result = explicit_deny;
          matched_sid = sid_of stmt i;
          conditional = has_condition stmt;
          not_clause = used_not;
        }
        else onward
  ]

  unfoldable pub evaluate_link : List Fields → Evaluation
  evaluate_link stmts =
      evaluate_loop stmts 1 (record { allow_hit = null; conditional = false; allow_not = false })
