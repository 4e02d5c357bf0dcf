-- ===== src/Base/Number/Milli.antt =====
-- Thousandths, an instance of the numbers that runs: 1500 stands for 1.5. Results are rounded
-- towards zero.
use fintraffic.Base.{ℕ, ◌+◌, ◌*◌, ◌/◌, ◌%◌, ◌<◌, ◌≤◌, arith, leb, ltb, true}
use native.Mathlib.Nat.{zero-div, le_trans, mul-div-le, le-div_iff_mul-le}
use fintraffic.Base.Int.{ℤ, pos, negsuc, sub_ℕ, pos_part, neg_part}
use fintraffic.Base.Number.{Number, IsOrdered, IsRounded, HasZero}

-- Quotient and remainder by the size of the second argument, towards zero.
abbrev pub quot : ℤ → ℕ → ℤ
quot a k = sub_ℕ (pos_part a / k) (neg_part a / k)

abbrev pub rest : ℤ → ℕ → ℤ
rest a k = sub_ℕ (pos_part a % k) (neg_part a % k)

abbrev pub size : ℤ → ℕ
size a = pos_part a + neg_part a

abbrev pub sign : ℤ → ℤ → ℤ
sign (pos b) q = q
sign (negsuc b) q = sub_ℕ (neg_part q) (pos_part q)

abbrev floor_div : ℤ → ℕ → ℤ
floor_div (pos n) k = pos (n / k)
floor_div (negsuc n) k = negsuc (n / k)

abbrev pub plus : ℤ → ℤ → ℤ
plus a b = sub_ℕ (pos_part a + pos_part b) (neg_part a + neg_part b)

abbrev pub minus : ℤ → ℤ → ℤ
minus a b = sub_ℕ (pos_part a + neg_part b) (neg_part a + pos_part b)

abbrev pub times : ℤ → ℤ → ℤ
times a b =
    sub_ℕ (pos_part a * pos_part b + neg_part a * neg_part b)
      (pos_part a * neg_part b + neg_part a * pos_part b)

abbrev pub milli : Number ℤ
milli = record {
  of_ℕ = λ n. pos (1000 * n);
  is_finite = λ a. true;
  add = plus;
  sub = minus;
  mul = λ a b. quot (times a b) 1000;
  div = λ a b. sign b (sub_ℕ ((1000 * pos_part a) / size b) ((1000 * neg_part a) / size b));
  rem = λ a b. rest a (size b);
  le = λ a b. leb (pos_part a + neg_part b) (pos_part b + neg_part a);
  lt = λ a b. ltb (pos_part a + neg_part b) (pos_part b + neg_part a);
  floor = λ a. floor_div a 1000;
  round = λ a. floor_div (plus a (pos 500)) 1000;
  text = λ a. "";
  to_fixed = λ d a. "";
}

pub milli-IsOrdered : IsOrdered milli
milli-IsOrdered = record {
  le_refl = λ a. ground arith;
  le_trans = λ a b c p q. ground arith;
  lt_not_le = λ a b. ground arith;
  lt_le = λ a b p. ground arith;
}

div_mono : (x y b d : ℕ) → 0 < b → 0 < d → x * d ≤ y * b → x / b ≤ y / d
div_mono x y b d hb hd h = (le-div_iff_mul-le hd).1 (
    le_of_mul (x / b * d) y b hb
      (le_trans (regroup (x / b) d b) (le_trans (scale (mul-div-le x b)) h)))
  where
    le_of_mul : (u v k : ℕ) → 0 < k → u * k ≤ v * k → u ≤ v
    le_of_mul u v k hk e = grind arith

    regroup : (q u v : ℕ) → q * u * v ≤ v * q * u
    regroup q u v = omega arith

    scale : {u v : ℕ} → u ≤ v → u * d ≤ v * d
    scale e = grind arith

pub milli-IsRounded : IsRounded milli
milli-IsRounded = record {
  of_ℕ_mono = λ a b h. ground arith;
  decimal_mono = λ a b c d hb hd h. ground (
    arith,
    zero-div (1000 * b + 0),
    zero-div (1000 * d + 0),
    div_mono (1000 * (1000 * a)) (1000 * (1000 * c)) (1000 * b + 0) (1000 * d + 0) (omega arith)
        (omega arith) (omega arith),
  );
}

pub milli-HasZero : HasZero milli
milli-HasZero = record {
  add_zero = λ a. ground arith;
  mul_zero = λ a. ground arith;
  sub_pos = λ a b h. ground arith;
  sub_self = λ a. ground arith;
  zero_div = λ a h. ground (arith, zero-div (size a));
}
