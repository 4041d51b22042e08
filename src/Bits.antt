-- ===== src/Bits.antt =====
-- `|` and `&` of machine words at variables: the fields of an instruction word add up, and a mask
-- of low ones is a remainder.
use Prim.Native.Nat.{min, max, digits, bitwise, bit_and-bitwise, bit_or-bitwise}
use native.Mathlib.Nat.{pow-suc, one-le-pow}
use temp_esas.Prelude.{
  ℕ, zero, suc, ◌+◌, ◌-◌, ◌*◌, ◌/◌, ◌%◌, ◌^◌, ◌≤◌, ◌<◌, ◌≡◌, refl, ap, bit_and, bit_or, arith, List,
  [], ◌∷◌, Bool, true, ◌&&◌,
}

infixl 75 ◌<<<◌ ◌>>>◌
abbrev pub ◌<<<◌ : ℕ → ℕ → ℕ
x <<< k = x * 2 ^ k

abbrev pub ◌>>>◌ : ℕ → ℕ → ℕ
x >>> k = x / 2 ^ k

infixl 45 ◌|||◌
infixl 46 ◌&&&◌
abbrev pub ◌|||◌ : ℕ → ℕ → ℕ
x ||| y = bit_or x y

abbrev pub ◌&&&◌ : ℕ → ℕ → ℕ
x &&& y = bit_and x y

-- Two amounts of fuel that both reach the first argument give the same digits.
module _ (rest : ℕ → ℕ) (f : ℕ → ℕ → ℕ) where
  digits-agree : (k l a b : ℕ) → a ≤ k → a ≤ l → digits rest f k a b ≡ digits rest f l a b
  digits-agree zero zero zero b hk hl = refl
  digits-agree zero (suc l) zero b hk hl = refl
  digits-agree (suc k) zero zero b hk hl = refl
  digits-agree (suc k) (suc l) zero b hk hl = refl
  digits-agree zero l (suc a) b hk hl = absurd (omega arith)
  digits-agree (suc k) zero (suc a) b hk hl = absurd (omega arith)
  digits-agree (suc k) (suc l) (suc a) b hk hl =
      omega (arith, digits-agree k l (suc a / 2) (b / 2) (omega arith) (omega arith))

  lowest-digit :
      (a b : ℕ)
      → bitwise rest f (suc a) b ≡ bitwise rest f (suc a / 2) (b / 2) * 2 + f (suc a % 2) (b % 2)
  lowest-digit a b =
      omega (arith, digits-agree a (suc a / 2) (suc a / 2) (b / 2) (omega arith) (omega arith))

-- The two laws that fix `|` and `&`: what they do to the lowest digit.
pub or-digit : (a b : ℕ) → bit_or a b ≡ bit_or (a / 2) (b / 2) * 2 + max (a % 2) (b % 2)
or-digit zero b = rw (bit_or-bitwise, bit_or-bitwise) (omega arith)
or-digit (suc a) b =
    rw (bit_or-bitwise (suc a) b, bit_or-bitwise (suc a / 2) (b / 2)) (lowest-digit _ max a b)

pub and-digit : (a b : ℕ) → bit_and a b ≡ bit_and (a / 2) (b / 2) * 2 + min (a % 2) (b % 2)
and-digit zero b = rw (bit_and-bitwise, bit_and-bitwise) (omega arith)
and-digit (suc a) b =
    rw (bit_and-bitwise (suc a) b, bit_and-bitwise (suc a / 2) (b / 2)) (lowest-digit _ min a b)

-- Fuel above the word in place of a strong induction.
pub or_zero_below : (k a : ℕ) → a ≤ k → bit_or a 0 ≡ a
or_zero_below k zero h = refl
or_zero_below zero (suc a) h = absurd (omega arith)
or_zero_below (suc k) (suc a) h =
    omega (arith, or-digit (suc a) 0, or_zero_below k (suc a / 2) (omega arith))

pub and_zero_below : (k a : ℕ) → a ≤ k → bit_and a 0 ≡ 0
and_zero_below k zero h = refl
and_zero_below zero (suc a) h = absurd (omega arith)
and_zero_below (suc k) (suc a) h =
    omega (arith, and-digit (suc a) 0, and_zero_below k (suc a / 2) (omega arith))

-- `a | r` is `a + r` where the low `k` bits of `a` are clear and `r` fits them.
pub or_disjoint_mul : (k q r : ℕ) → r < 2 ^ k → bit_or (2 ^ k * q) r ≡ 2 ^ k * q + r
or_disjoint_mul zero q r h = ground (arith, or_zero_below q q (omega arith))
or_disjoint_mul (suc k) q r h = ground (
  arith,
  or-digit (2 ^ suc k * q) r,
  ap (λ (t : ℕ). t * q) (pow-suc 2 k),
  pow-suc 2 k,
  or_disjoint_mul k q (r / 2),
)

and_low_split : (k q r : ℕ) → r < 2 ^ k → bit_and (2 ^ k * q + r) (2 ^ k - 1) ≡ r
and_low_split zero q r h = ground (arith, and_zero_below (q + r) (q + r) (omega arith))
and_low_split (suc k) q r h = ground (
  arith,
  and-digit (2 ^ suc k * q + r) (2 ^ suc k - 1),
  ap (λ (t : ℕ). t * q) (pow-suc 2 k),
  pow-suc 2 k,
  one-le-pow k 2,
  and_low_split k q (r / 2),
)

-- `a & (2^k - 1)` is the remainder.
pub and_low : (k a : ℕ) → bit_and a (2 ^ k - 1) ≡ a % 2 ^ k
and_low k a = ground (arith, one-le-pow k 2, and_low_split k (a / 2 ^ k) (a % 2 ^ k))

-- `a | r` is `a + r` where the low `k` bits of `a` are clear and `r` fits them.
pub or-add : (k a r : ℕ) → a % 2 ^ k ≡ 0 → r < 2 ^ k → bit_or a r ≡ a + r
or-add k a r clear fits = ground (arith, one-le-pow k 2, or_disjoint_mul k (a / 2 ^ k) r)

-- An instruction word is put together from a constant and fields `(value, shift, top)`, each
-- below the bit `top`, from the highest down; the last field stands at bit 0.
abbrev pub or_fields : ℕ → List (ℕ × ℕ × ℕ) → ℕ
or_fields w [] = w
or_fields w ((v, s, t) ∷ fs) = or_fields (bit_or w (v <<< s)) fs

abbrev pub add_fields : ℕ → List (ℕ × ℕ × ℕ) → ℕ
add_fields w [] = w
add_fields w ((v, s, t) ∷ fs) = add_fields (w + v * 2 ^ s) fs

-- No field overlaps what stands above it.
abbrev pub FieldsFit : ℕ → List (ℕ × ℕ × ℕ) → Type 0
FieldsFit w [] = Unit {0}
FieldsFit w ((v, s, t) ∷ fs) = (w % 2 ^ t ≡ 0) × (v * 2 ^ s < 2 ^ t) × FieldsFit (w + v * 2 ^ s) fs

pub or_fields-add_fields :
    (w : ℕ) (fs : List (ℕ × ℕ × ℕ)) → FieldsFit w fs → or_fields w fs ≡ add_fields w fs
or_fields-add_fields w [] h = refl
or_fields-add_fields w ((v, s, t) ∷ fs) (clear, fits, more) =
    rw (or-add t w (v * 2 ^ s) clear fits) (or_fields-add_fields (w + v * 2 ^ s) fs more)

-- The same with a last field at bit 0 that is `k` bits wide.
pub or_fields_last :
    (w : ℕ) (fs : List (ℕ × ℕ × ℕ)) (k r : ℕ)
    → FieldsFit w fs
    → add_fields w fs % 2 ^ k ≡ 0
    → r < 2 ^ k
    → bit_or (or_fields w fs) r ≡ add_fields w fs + r
or_fields_last w fs k r h clear fits =
    rw (or_fields-add_fields w fs h) (or-add k (add_fields w fs) r clear fits)

-- The register number in the low five bits of its argument.
pub and_reg : (r : ℕ) → r < 32 → bit_and r 0x1F ≡ r
and_reg r h = omega (arith, and_low 5 r)

pub and_field : (k x : ℕ) → x < 2 ^ k → bit_and x (2 ^ k - 1) ≡ x
and_field k x h = grind (arith, and_low k x)

-- A test of every value below a bound, by evaluation.
abbrev pub check_below : ℕ → (ℕ → Bool) → Bool
check_below zero p = true
check_below (suc n) p = p n && check_below n p

pub check_below_sound : (n : ℕ) (p : ℕ → Bool) (x : ℕ) → check_below n p ≡ true → x < n → p x ≡ true
check_below_sound zero p x h lt = absurd (omega arith)
check_below_sound (suc n) p x h lt = ground (arith, check_below_sound n p x)

-- The low part may also come first.
pub add_low-or : (k q r : ℕ) → r < 2 ^ k → bit_or r (q * 2 ^ k) ≡ r + q * 2 ^ k
add_low-or zero q zero h = ground (arith, bit_or-bitwise 0 q)
add_low-or zero q (suc r) h = absurd (omega arith)
add_low-or (suc k) q r h = ground (
  arith,
  or-digit r (q * 2 ^ suc k),
  ap (λ (t : ℕ). q * t) (pow-suc 2 k),
  pow-suc 2 k,
  add_low-or k q (r / 2),
)
