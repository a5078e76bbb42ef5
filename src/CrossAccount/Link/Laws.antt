-- ===== src/CrossAccount/Link/Laws.antt =====
-- What the answer of one policy says of its statements, whatever their order.
use mathlib.Core.List.{Perm}
use storageops.Base.{
  ℕ, ◌+◌, if◌then◌else◌, ◌≡◌, refl, ◌≢◌, inl, inr, Bool, true, false, not, ◌&&◌, ◌||◌, none, some,
  List, [], ◌∷◌, Text, txt, arith, any, all, any-perm, Option-cases,
}
use storageops.Json.{Fields, has, get, get_or}
use storageops.CrossAccount.Link.{
  Result, explicit_deny, allow, implicit_deny, not_provided, Hit, is_none, effect_is, sid_of,
  applicability, record_allow, conclude, evaluate_loop, evaluate_link,
}

-- A key that is there and holds null.
unfoldable pub null_sid : Fields → Bool
null_sid stmt = has stmt (txt "Sid") && is_none (get stmt (txt "Sid"))

is_none-sid_of : (stmt : Fields) (i : ℕ) → is_none (sid_of stmt i) ≡ null_sid stmt
unfolding null_sid sid_of is_none get_or
is_none-sid_of stmt i = ground arith

module _ (action resource arn : Text) (match_principal : Bool) where
  unfoldable pub applies : Fields → Bool
  applies stmt = elim (applicability action resource arn match_principal stmt) [
    | none ↦ false
    | some _ ↦ true
  ]

  unfoldable pub denies : Fields → Bool
  denies stmt = applies stmt && effect_is "deny" stmt

  -- A statement that allows and whose identifier is not null.
  unfoldable pub allows : Fields → Bool
  allows stmt = applies stmt && (effect_is "allow" stmt && not (null_sid stmt))

  -- The answer, from what some statement does.
  unfoldable pub verdict : Bool → Bool → Result
  verdict denied allowed =
      if denied then explicit_deny else if allowed then allow else implicit_deny

  evaluate_loop_lem :
      (stmts : List Fields) (i : ℕ) (h : Hit)
      → (evaluate_loop action resource arn match_principal stmts i h).result
        ≡ verdict (any denies stmts) (not (is_none h.allow_hit) || any allows stmts)
  unfolding evaluate_loop verdict any applies denies allows record_allow conclude is_none
  evaluate_loop_lem [] i h = ground arith
  evaluate_loop_lem (stmt ∷ rest) i h =
      elim (Option-cases (applicability action resource arn match_principal stmt)) [
        | inl skip ↦ ground (arith, evaluate_loop_lem rest (i + 1) h)
        | inr (used_not, hit) ↦
            (ground (
              arith,
              is_none-sid_of stmt i,
              evaluate_loop_lem rest (i + 1) (record_allow h stmt i used_not),
            ))
      ]

  -- One policy answers explicit deny exactly when some statement that applies denies; failing that,
  -- allow exactly when some statement that applies allows and has an identifier that is not null;
  -- and implicit deny otherwise. The order of the statements plays no part.
  pub evaluate_link_lem :
      (stmts : List Fields)
      → (evaluate_link action resource arn match_principal stmts).result
        ≡ verdict (any denies stmts) (any allows stmts)
  unfolding evaluate_link is_none
  evaluate_link_lem stmts = evaluate_loop_lem stmts 1 _

  -- The answer of one policy does not depend on the order of its statements.
  pub evaluate_link-perm :
      (xs ys : List Fields)
      → Perm xs ys
      → (evaluate_link action resource arn match_principal xs).result
        ≡ (evaluate_link action resource arn match_principal ys).result
  evaluate_link-perm xs ys p =
      rw (evaluate_link_lem, evaluate_link_lem, any-perm denies xs ys p, any-perm allows xs ys p)

  -- One policy always answers with one of the three results.
  pub evaluate_link-provided :
      (stmts : List Fields)
      → (evaluate_link action resource arn match_principal stmts).result ≢ not_provided
  unfolding verdict
  evaluate_link-provided stmts = ground (arith, evaluate_link_lem stmts)

  any-allows-null_sid : (stmts : List Fields) → all null_sid stmts ≡ true → any allows stmts ≡ false
  unfolding any all allows
  any-allows-null_sid [] h = refl
  any-allows-null_sid (stmt ∷ rest) h = ground (arith, any-allows-null_sid rest)

  -- A policy in which every statement holds a `Sid` of null never answers allow, whatever its
  -- statements allow.
  pub evaluate_link-null_sid :
      (stmts : List Fields)
      → all null_sid stmts ≡ true
      → (evaluate_link action resource arn match_principal stmts).result ≢ allow
  unfolding verdict
  evaluate_link-null_sid stmts h =
      ground (arith, evaluate_link_lem stmts, any-allows-null_sid stmts h)
