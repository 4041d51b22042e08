-- ===== src/Masks.antt =====
-- `&` and `|` of words that are split into a top and a low part.
use native.Mathlib.Nat.{pow-suc, one-le-pow}
use temp_esas.Prelude.{
  ℕ, zero, suc, ◌+◌, ◌-◌, ◌*◌, ◌/◌, ◌%◌, ◌^◌, ◌<◌, ◌≡◌, ◌∙◌, ap, bit_and, bit_or, arith,
}
use temp_esas.Bits.{and-digit, or-digit, and_zero_below, or_zero_below, and_field, or-add}

-- `&` goes field by field.
pub and_split :
    (k q m a r : ℕ)
    → a < 2 ^ k
    → r < 2 ^ k
    → bit_and (2 ^ k * q + a) (2 ^ k * m + r) ≡ 2 ^ k * bit_and q m + bit_and a r
and_split zero q m zero zero ha hr = ground (arith, and_zero_below 0 0)
and_split zero q m zero (suc r) ha hr = absurd (omega arith)
and_split zero q m (suc a) r ha hr = absurd (omega arith)
and_split (suc k) q m a r ha hr = ground (
  arith,
  and-digit (2 ^ suc k * q + a) (2 ^ suc k * m + r),
  and-digit a r,
  ap (λ (t : ℕ). t * q) (pow-suc 2 k),
  ap (λ (t : ℕ). t * m) (pow-suc 2 k),
  ap (λ (t : ℕ). t * bit_and q m) (pow-suc 2 k),
  pow-suc 2 k,
  and_split k q m (a / 2) (r / 2),
)

-- A mask that keeps the top of a word from bit `k` on, where the top has `n` bits.
pub and_top :
    (k n q a : ℕ)
    → q < 2 ^ n
    → a < 2 ^ k
    → bit_and (2 ^ k * q + a) (2 ^ k * (2 ^ n - 1) + 0) ≡ 2 ^ k * q
and_top k n q a hq ha =
    and_split k q (2 ^ n - 1) a 0 ha (one-le-pow k 2 (omega arith))
    ∙ ground (arith, and_field n q hq, and_zero_below a a)

-- `|` goes field by field too.
pub or_split :
    (k q m a r : ℕ)
    → a < 2 ^ k
    → r < 2 ^ k
    → bit_or (2 ^ k * q + a) (2 ^ k * m + r) ≡ 2 ^ k * bit_or q m + bit_or a r
or_split zero q m zero zero ha hr = ground (arith, or_zero_below 0 0)
or_split zero q m zero (suc r) ha hr = absurd (omega arith)
or_split zero q m (suc a) r ha hr = absurd (omega arith)
or_split (suc k) q m a r ha hr = ground (
  arith,
  or-digit (2 ^ suc k * q + a) (2 ^ suc k * m + r),
  or-digit a r,
  ap (λ (t : ℕ). t * q) (pow-suc 2 k),
  ap (λ (t : ℕ). t * m) (pow-suc 2 k),
  ap (λ (t : ℕ). t * bit_or q m) (pow-suc 2 k),
  pow-suc 2 k,
  or_split k q m (a / 2) (r / 2),
)

-- A field of `n` bits goes into a gap between a top and a low part.
pub or_gap :
    (k n q o a : ℕ)
    → q % 2 ^ n ≡ 0
    → o < 2 ^ n
    → a < 2 ^ k
    → bit_or (2 ^ k * q + a) (2 ^ k * o + 0) ≡ 2 ^ k * (q + o) + a
or_gap k n q o a hq ho ha =
    or_split k q o a 0 ha (one-le-pow k 2 (omega arith))
    ∙ ground (arith, or-add n q o hq ho, or_zero_below a a)
