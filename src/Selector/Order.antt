-- ===== src/Selector/Order.antt =====
-- `precedes` orders the matches, so the sort may use it.
use optipod.Prelude.{
  ◌≡◌, eq_of_eqb_ℤ, str_lt_trans, str_lt-false_trans, str_lt_irrefl, eq_of_not-str_lt, true, false,
  arith,
}
use optipod.Platform.{Platform}
use optipod.Platform.Laws.{IsOrdering}
use optipod.Selector.{PolicyMatch, precedes}

module _ {P : Platform} where
  precedes_irrefl : (a : PolicyMatch P) → precedes a a ≡ false
  unfolding precedes
  precedes_irrefl a = ground (arith, str_lt_irrefl a.policy.name)

  precedes_trans :
      (a b c : PolicyMatch P) → precedes a b ≡ true → precedes b c ≡ true → precedes a c ≡ true
  unfolding precedes
  precedes_trans a b c h k = ground (arith, str_lt_trans a.policy.name b.policy.name c.policy.name)

  precedes-false_trans :
      (a b c : PolicyMatch P) → precedes a b ≡ false → precedes b c ≡ false → precedes a c ≡ false
  unfolding precedes
  precedes-false_trans a b c h k =
      ground (arith, str_lt-false_trans a.policy.name b.policy.name c.policy.name)

  pub precedes-IsOrdering : IsOrdering (precedes {P = P})
  precedes-IsOrdering = record {
    irrefl = precedes_irrefl;
    trans = precedes_trans;
    false_trans = precedes-false_trans;
  }

  -- Matches that do not precede one another agree in weight and name.
  pub ties_agree :
      (a b : PolicyMatch P)
      → precedes a b ≡ false
      → precedes b a ≡ false
      → (a.weight ≡ b.weight) × (a.policy.name ≡ b.policy.name)
  unfolding precedes
  ties_agree a b h k =
      ground (arith, eq_of_not-str_lt a.policy.name b.policy.name, eq_of_eqb_ℤ a.weight b.weight)
