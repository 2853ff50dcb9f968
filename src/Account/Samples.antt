-- ===== src/Account/Samples.antt =====
-- Whole amounts, an exact arithmetic for the tests of futures_fund/account.py.
use gpt_market_neutral_crypt.Prelude.{
  ℕ, suc, ◌+◌, ◌-◌, ◌*◌, ◌/◌, ◌≡◌, ◌≤◌, ◌<◌, ap, Bool, true, arith, ltb, leb, if◌then◌else◌,
}
use gpt_market_neutral_crypt.Account.{Arithmetic}
use gpt_market_neutral_crypt.Account.Exact.{Exact}

-- `negsuc n` is -(n + 1).
pub data ℤ : Type 0 where
  pos negsuc : ℕ → ℤ

abbrev pos_part : ℤ → ℕ
pos_part (pos n) = n
pos_part (negsuc n) = 0

abbrev neg_part : ℤ → ℕ
neg_part (pos n) = 0
neg_part (negsuc n) = suc n

abbrev difference : ℕ → ℕ → ℤ
difference a b = if leb b a then pos (a - b) else negsuc (b - a - 1)

infixl 65 ◌+ℤ◌ ◌-ℤ◌
infixl 70 ◌*ℤ◌ ◌/ℤ◌
unfoldable pub ◌+ℤ◌ : ℤ → ℤ → ℤ
a +ℤ b = difference (pos_part a + pos_part b) (neg_part a + neg_part b)

unfoldable pub ◌-ℤ◌ : ℤ → ℤ → ℤ
a -ℤ b = difference (pos_part a + neg_part b) (neg_part a + pos_part b)

unfoldable pub neg_ℤ : ℤ → ℤ
neg_ℤ a = difference (neg_part a) (pos_part a)

unfoldable pub ◌*ℤ◌ : ℤ → ℤ → ℤ
a *ℤ b =
    difference (pos_part a * pos_part b + neg_part a * neg_part b)
      (pos_part a * neg_part b + neg_part a * pos_part b)

-- Rounds to zero, and is used on positive amounts only.
unfoldable pub ◌/ℤ◌ : ℤ → ℤ → ℤ
pos a /ℤ pos b = pos (a / b)
_ /ℤ _ = pos 0

unfoldable pub lt_ℤ : ℤ → ℤ → Bool
lt_ℤ a b = ltb (pos_part a + neg_part b) (pos_part b + neg_part a)

abbrev pub whole : Arithmetic ℤ
whole = record {
  nought = pos 0;
  one = pos 1;
  tiny = pos 0;
  billionth = pos 0;
  plus = λ a b. a +ℤ b;
  minus = λ a b. a -ℤ b;
  times = λ a b. a *ℤ b;
  over = λ a b. a /ℤ b;
  negated = neg_ℤ;
  lt = lt_ℤ;
  is_finite = λ _. true;
}

plus_assoc_ℤ : (x y z : ℤ) → (x +ℤ y) +ℤ z ≡ x +ℤ (y +ℤ z)
unfolding ◌+ℤ◌
plus_assoc_ℤ x y z = ground arith

quotient : (a s k : ℕ) → k * s ≤ a → a < k * s + s → a / s ≡ k
quotient a s k lo hi = grind arith

div_self : (n : ℕ) → 0 < n → n / n ≡ 1
div_self n h = quotient n n 1 (omega arith) (omega arith)

over_self_ℤ : (x : ℤ) → lt_ℤ (pos 0) x ≡ true → x /ℤ x ≡ pos 1
unfolding lt_ℤ ◌/ℤ◌
over_self_ℤ (pos n) h = ap pos (div_self n (ground arith))
over_self_ℤ (negsuc n) h = absurd (ground arith)

times_nought_ℤ : (x : ℤ) → x *ℤ pos 0 ≡ pos 0
unfolding ◌*ℤ◌
times_nought_ℤ x = ground arith

times_one_ℤ : (x : ℤ) → x *ℤ pos 1 ≡ x
unfolding ◌*ℤ◌
times_one_ℤ x = ground arith

pub whole-Exact : Exact whole
unfolding ◌+ℤ◌ ◌-ℤ◌ neg_ℤ lt_ℤ
whole-Exact = record {
  plus_assoc = plus_assoc_ℤ;
  plus_comm = λ x y. ground arith;
  plus_nought = λ x. ground arith;
  plus_negated = λ x. ground arith;
  negated_plus = λ x y. ground arith;
  minus_lem = λ x y. ground arith;
  times_nought = times_nought_ℤ;
  times_one = times_one_ℤ;
  over_self = over_self_ℤ;
  lt_total = λ x a b. ground arith;
}
