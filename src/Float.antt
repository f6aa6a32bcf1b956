-- ===== src/Float.antt =====
-- Floating-point numbers as an interface: the operations that the services use, and the laws of
-- comparison that the theorems rest on. They hold of IEEE numbers, NaN included: a comparison with
-- NaN is false.
use indu_sense.Base.{ℕ, ◌≡◌, Bool, true, false}

pub record Float (F : Type 0) : Type 0 where
  pub lt : F → F → Bool
  pub le : F → F → Bool
  pub add : F → F → F
  pub sub : F → F → F
  pub mul : F → F → F
  pub div : F → F → F
  pub sqrt : F → F
  pub abs : F → F
  pub neg : F → F
  pub log : F → F
  pub pow : F → F → F
  -- the number n / d, for the literals of the source
  pub ratio : ℕ → ℕ → F

pub record Comparison {F : Type 0} (f : Float F) : Type 0 where
  pub lt_irrefl : (a : F) → f.lt a a ≡ false
  pub lt_trans : (a b c : F) → f.lt a b ≡ true → f.lt b c ≡ true → f.lt a c ≡ true

module _ {F : Type 0} (f : Float F) where
  abbrev pub number : ℕ → F
  number n = f.ratio n 1
