-- ===== src/Ranking/Keys.antt =====
-- The tuples by which rows are compared are linearly ordered.
use ai_powered_premier_leagu.Prelude.{◌≡◌, true, false, ℤ, eqb_ℤ, arith}
use ai_powered_premier_leagu.Ranking.{
  PrimaryKey, SecondaryKey, primary_lt, primary_eq, secondary_lt, secondary_eq,
}

pub primary_eq_refl : (k : PrimaryKey) → primary_eq k k ≡ true
unfolding primary_eq
primary_eq_refl k = ground arith

eqb_ℤ→eq : (a b : ℤ) → eqb_ℤ a b ≡ true → a ≡ b
eqb_ℤ→eq a b h = ground arith

pub primary_eq→path : (j k : PrimaryKey) → primary_eq j k ≡ true → j ≡ k
unfolding primary_eq
primary_eq→path j k h = ground (arith, eqb_ℤ→eq j.goal_difference k.goal_difference)

pub primary_lt_trans :
    (a b c : PrimaryKey) → primary_lt a b ≡ true → primary_lt b c ≡ true → primary_lt a c ≡ true
unfolding primary_lt
primary_lt_trans a b c h k = ground arith

pub primary_lt_total :
    (a b : PrimaryKey) → primary_lt a b ≡ false → primary_eq a b ≡ false → primary_lt b a ≡ true
unfolding primary_lt primary_eq
primary_lt_total a b h k = ground arith

pub secondary_eq_refl : (k : SecondaryKey) → secondary_eq k k ≡ true
unfolding secondary_eq
secondary_eq_refl k = ground arith

pub secondary_eq→path : (j k : SecondaryKey) → secondary_eq j k ≡ true → j ≡ k
unfolding secondary_eq
secondary_eq→path j k h = ground arith

pub secondary_lt_trans :
    (a b c : SecondaryKey)
    → secondary_lt a b ≡ true
    → secondary_lt b c ≡ true
    → secondary_lt a c ≡ true
unfolding secondary_lt
secondary_lt_trans a b c h k = ground arith

pub secondary_lt_total :
    (a b : SecondaryKey)
    → secondary_lt a b ≡ false
    → secondary_eq a b ≡ false
    → secondary_lt b a ≡ true
unfolding secondary_lt secondary_eq
secondary_lt_total a b h k = ground arith
