-- ===== src/Serialization/PackLaws.antt =====
-- What the fixed-width integers of `struct` write and read.
use native.Mathlib.Nat.{
  add-mul-mod_self_left, mod-eq_of_lt, mod-lt, div-add-mod, one-le-pow, pow-suc,
}
use skepticoin.Prelude.{
  Bytes, ap, arith, length, refl, suc, zero, ℕ, ◌%◌, ◌*◌, ◌+◌, ◌/◌, ◌<◌, ◌^◌, ◌∙◌, ◌≡◌,
}
use skepticoin.Prelude.Result.{ok}
use skepticoin.Serialization.Pack.{from_be, pack, to_be}

digit_bound : (d r p k : ℕ) → r < p → d < k → d * p + r < p * k
digit_bound d r p k hr hd = grind arith

two_digits : (n p k : ℕ) → n ≡ n / p % k * p + n % p + p * k * (n / p / k)
two_digits n p k = omega (arith, div-add-mod n p, ap (λ (t : ℕ). t * p) (div-add-mod (n / p) k))

-- The remainder by a product, digit by digit.
pub mod-mul : (n p k : ℕ) → 0 < p → 0 < k → n % (p * k) ≡ n / p % k * p + n % p
mod-mul n p k hp hk =
    ap (λ (t : ℕ). t % (p * k)) (two_digits n p k)
    ∙ add-mul-mod_self_left (n / p % k * p + n % p) (p * k) (n / p / k)
    ∙ mod-eq_of_lt (digit_bound (n / p % k) (n % p) p k (mod-lt n hp) (mod-lt (n / p) hk))

pub pow_pos : (b k : ℕ) → 0 < b → 0 < b ^ k
pow_pos b k h = one-le-pow k b h

pub length-to_be : (w n : ℕ) → length (to_be w n) ≡ w
unfolding to_be
length-to_be zero n = refl
length-to_be (suc w) n = ap suc (length-to_be w n)

from_be-to_be_from : (w n acc : ℕ) → from_be acc (to_be w n) ≡ acc * 256 ^ w + n % 256 ^ w
unfolding to_be from_be
from_be-to_be_from zero n acc = omega arith
from_be-to_be_from (suc w) n acc = omega (
  arith,
  from_be-to_be_from w n (acc * 256 + n / 256 ^ w % 256),
  mod-mul n (256 ^ w) 256 (pow_pos 256 w (omega arith)) (omega arith),
  ap (λ (t : ℕ). acc * t) (pow-suc 256 w),
  ap (λ (t : ℕ). n % t) (pow-suc 256 w),
  pow-suc 256 w,
)

-- `from_bytes` undoes `to_bytes` on what fits in the width.
pub from_be-to_be : (w n : ℕ) → n < 256 ^ w → from_be 0 (to_be w n) ≡ n
from_be-to_be w n h = from_be-to_be_from w n 0 ∙ omega (arith, mod-eq_of_lt h)

-- `struct.pack` succeeds exactly on what fits, and writes the width.
pub pack_ok : (w n : ℕ) → n < 256 ^ w → pack w n ≡ ok (to_be w n)
unfolding pack
pack_ok w n h = ground arith

pub pack-eq_ok : (w n : ℕ) {b : Bytes} → pack w n ≡ ok b → (n < 256 ^ w) × (b ≡ to_be w n)
unfolding pack
pack-eq_ok w n h = ground arith
