-- ===== src/Memory/Float.antt =====
-- Go's float64, as far as internal/memory computes with it: operations without laws, so that no
-- rounding is assumed away.
use flockd.Base.{ℕ, ◌+◌, ◌-◌, ◌*◌, ◌/◌, ◌^◌, Bool, ltb}

pub record Float64 : Type 1 where
  pub Number : Type 0
  -- float64(n) of an integer that is not negative
  pub of_nat : ℕ → Number
  -- the constant n / 10^d
  pub decimal : ℕ → ℕ → Number
  pub add : Number → Number → Number
  pub sub : Number → Number → Number
  pub mul : Number → Number → Number
  pub div : Number → Number → Number
  -- x > 0
  pub is_positive : Number → Bool
  -- int64(x) of a number that is not negative
  pub trunc : Number → ℕ

-- Exact fractions, cut off at 0, as an arithmetic to evaluate with.
pub record Fraction : Type 0 where
  pub num : ℕ
  pub den : ℕ

abbrev pub fractions : Float64
fractions = record {
  Number = Fraction;
  of_nat = λ n. record { num = n; den = 1 };
  decimal = λ n d. record { num = n; den = 10 ^ d };
  add = λ a b. record { num = a.num * b.den + b.num * a.den; den = a.den * b.den };
  sub = λ a b. record { num = a.num * b.den - b.num * a.den; den = a.den * b.den };
  mul = λ a b. record { num = a.num * b.num; den = a.den * b.den };
  div = λ a b. record { num = a.num * b.den; den = a.den * b.num };
  is_positive = λ a. ltb 0 a.num;
  trunc = λ a. a.num / a.den;
}
