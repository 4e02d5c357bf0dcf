-- ===== src/Base/Number.antt =====
-- JavaScript numbers. The type and its operations are a parameter of the model; the laws that a
-- theorem relies on are a second record, which holds of the doubles other than NaN.
pub mod Milli
use fintraffic.Base.{ℕ, ◌*◌, ◌^◌, ◌≤◌, ◌<◌, ◌≡◌, Bool, true, false, not, String}
use fintraffic.Base.Int.{ℤ}

pub record Number (A : Type 0) : Type 0 where
  -- An integer literal, or an integer that is used as a number.
  pub of_ℕ : ℕ → A
  pub add : A → A → A
  pub sub : A → A → A
  pub mul : A → A → A
  pub div : A → A → A
  -- `%`, with the sign of the dividend.
  pub rem : A → A → A
  -- `a <= b` and `a < b`.
  pub le : A → A → Bool
  pub lt : A → A → Bool
  -- `Number.isFinite(a)`.
  pub is_finite : A → Bool
  -- `Math.floor` and `Math.round`.
  pub floor : A → ℤ
  pub round : A → ℤ
  -- `String(a)` and `a.toFixed(digits)`.
  pub text : A → String
  pub to_fixed : ℕ → A → String

-- A decimal literal: the correctly rounded quotient of two integers.
abbrev pub decimal : {A : Type 0} → Number A → ℕ → ℕ → A
decimal n a b = n.div (n.of_ℕ a) (n.of_ℕ b)

abbrev pub maximum : {A : Type 0} → Number A → A → A → A
maximum n a b = elim (n.lt a b) [ true ↦ b | false ↦ a ]

abbrev pub minimum : {A : Type 0} → Number A → A → A → A
minimum n a b = elim (n.lt b a) [ true ↦ b | false ↦ a ]

-- The comparisons are a total order.
pub record IsOrdered {A : Type 0} (n : Number A) : Type 0 where
  pub le_refl : (a : A) → n.le a a ≡ true
  pub le_trans : (a b c : A) → n.le a b ≡ true → n.le b c ≡ true → n.le a c ≡ true
  pub lt_not_le : (a b : A) → n.lt a b ≡ not (n.le b a)
  pub lt_le : (a b : A) → n.lt a b ≡ true → n.le a b ≡ true

-- Conversion and division round to the nearest double, so they keep the order of literals.
pub record IsRounded {A : Type 0} (n : Number A) : Type 0 where
  pub of_ℕ_mono : (a b : ℕ) → a ≤ b → n.le (n.of_ℕ a) (n.of_ℕ b) ≡ true
  pub decimal_mono :
      (a b c d : ℕ) → 0 < b → 0 < d → a * d ≤ c * b → n.le (decimal n a b) (decimal n c d) ≡ true

-- What the arithmetic gives at zero, and the sign of a difference.
pub record HasZero {A : Type 0} (n : Number A) : Type 0 where
  pub add_zero : (a : A) → n.add a (n.of_ℕ 0) ≡ a
  pub mul_zero : (a : A) → n.mul a (n.of_ℕ 0) ≡ n.of_ℕ 0
  pub sub_pos : (a b : A) → n.lt a b ≡ true → n.lt (n.of_ℕ 0) (n.sub b a) ≡ true
  pub sub_self : (a : A) → n.sub a a ≡ n.of_ℕ 0
  pub zero_div : (a : A) → n.lt (n.of_ℕ 0) a ≡ true → n.div (n.of_ℕ 0) a ≡ n.of_ℕ 0
