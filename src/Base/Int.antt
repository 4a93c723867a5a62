-- ===== src/Base/Int.antt =====
-- Signed integers over the native numbers, and Go's `int64` and `int32`, which wrap around.
use Prim.Native.Nat.{ℕ, suc, ◌+◌, ◌-◌, ◌*◌, ◌/◌, ◌%◌, ◌≤◌, ◌<◌}
use mathlib.Core.Path.{◌≡◌, refl, ap}
use mathlib.Core.Logic.{◌≢◌, ◌⊎◌, inl, inr}
use mathlib.Core.Bool.{Bool, false, ◌&&◌}
use native.Mathlib.Omega.{arith}
use stroom_k8s_operator.Base.Equality.{if◌then◌else◌}
use stroom_k8s_operator.Base.Tests.{ltb, leb}

-- `negsuc n` is -(n + 1).
pub data ℤ : Type 0 where
  pos : ℕ → ℤ
  negsuc : ℕ → ℤ

abbrev pub pos_part : ℤ → ℕ
pos_part (pos n) = n
pos_part (negsuc n) = 0

abbrev pub neg_part : ℤ → ℕ
neg_part (pos n) = 0
neg_part (negsuc n) = suc n

-- a - b, as an integer.
abbrev pub sub_ℕ : ℕ → ℕ → ℤ
sub_ℕ a b = if leb b a then pos (a - b) else negsuc (b - a - 1)

infixl 65 ◌+ℤ◌ ◌-ℤ◌
infixl 70 ◌*ℤ◌
infix 50 ◌≤ℤ◌ ◌<ℤ◌
unfoldable pub ◌+ℤ◌ : ℤ → ℤ → ℤ
a +ℤ b = sub_ℕ (pos_part a + pos_part b) (neg_part a + neg_part b)

unfoldable pub ◌-ℤ◌ : ℤ → ℤ → ℤ
a -ℤ b = sub_ℕ (pos_part a + neg_part b) (neg_part a + pos_part b)

unfoldable pub ◌*ℤ◌ : ℤ → ℤ → ℤ
a *ℤ b =
    sub_ℕ (pos_part a * pos_part b + neg_part a * neg_part b)
      (pos_part a * neg_part b + neg_part a * pos_part b)

abbrev pub ◌≤ℤ◌ : ℤ → ℤ → Type 0
a ≤ℤ b = pos_part a + neg_part b ≤ pos_part b + neg_part a

abbrev pub ◌<ℤ◌ : ℤ → ℤ → Type 0
a <ℤ b = pos_part a + neg_part b < pos_part b + neg_part a

abbrev pub ltb_ℤ : ℤ → ℤ → Bool
ltb_ℤ a b = ltb (pos_part a + neg_part b) (pos_part b + neg_part a)

abbrev pub leb_ℤ : ℤ → ℤ → Bool
leb_ℤ a b = leb (pos_part a + neg_part b) (pos_part b + neg_part a)

abbrev pub ℤ_eq : ℤ → ℤ → Bool
ℤ_eq a b = leb_ℤ a b && leb_ℤ b a

-- One lemma for each operation lets `omega` work with the operations shut.
pub +ℤ_parts :
    (a b : ℤ)
    → pos_part (a +ℤ b) + neg_part a + neg_part b ≡ neg_part (a +ℤ b) + pos_part a + pos_part b
unfolding ◌+ℤ◌
+ℤ_parts a b = ground arith

pub -ℤ_parts :
    (a b : ℤ)
    → pos_part (a -ℤ b) + neg_part a + pos_part b ≡ neg_part (a -ℤ b) + pos_part a + neg_part b
unfolding ◌-ℤ◌
-ℤ_parts a b = ground arith

pub ℤ_eq-false : (a b : ℤ) → ℤ_eq a b ≡ false → a ≢ b
ℤ_eq-false a b h e = ground (arith, ap pos_part e, ap neg_part e)

-- A number has one sign.
pub one_sign : (a : ℤ) → (pos_part a ≡ 0) ⊎ (neg_part a ≡ 0)
one_sign (pos n) = inr refl
one_sign (negsuc n) = inl refl

pub eq_of_parts : (a b : ℤ) → pos_part a + neg_part b ≡ pos_part b + neg_part a → a ≡ b
eq_of_parts a b h = ground arith

pub ruleset int_laws = (arith, +ℤ_parts, -ℤ_parts, eq_of_parts)

-- Two's complement: the value of the low `w` bits, for `half` = 2 ^ (w - 1). A negative number
-- -(n + 1) has the bits of `2 * half - 1 - n % (2 * half)`.
abbrev bits : ℕ → ℤ → ℕ
bits half (pos n) = n % (half + half)
bits half (negsuc n) = half + half - 1 - n % (half + half)

abbrev wrap : ℕ → ℤ → ℤ
wrap half x = let b = bits half x in if ltb b half then pos b else negsuc (half + half - 1 - b)

unfoldable pub int64 : ℤ → ℤ
int64 x = wrap 0x8000000000000000 x

unfoldable pub int32 : ℤ → ℤ
int32 x = wrap 0x80000000 x

abbrev pub InInt64 : ℤ → Type 0
InInt64 x = (pos_part x < 0x8000000000000000) × (neg_part x ≤ 0x8000000000000000)

abbrev pub InInt32 : ℤ → Type 0
InInt32 x = (pos_part x < 0x80000000) × (neg_part x ≤ 0x80000000)

-- A value in range is kept.
pub int64-eq : (x : ℤ) → InInt64 x → int64 x ≡ x
unfolding int64
int64-eq x h = ground arith

pub int32-eq : (x : ℤ) → InInt32 x → int32 x ≡ x
unfolding int32
int32-eq x h = ground arith

-- Go's integer division by a positive number rounds towards zero.
unfoldable pub quot : ℤ → ℕ → ℤ
quot (pos n) m = pos (n / m)
quot (negsuc n) m = sub_ℕ 0 (suc n / m)
