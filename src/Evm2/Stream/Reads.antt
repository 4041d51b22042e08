-- ===== src/Evm2/Stream/Reads.antt =====
-- What a reader does, told by the bits in front of it.
use mathlib.Core.List.{append_assoc}
use native.Mathlib.Nat.{pow-suc}
use native.Mathlib.Numerals.{add-one}
use temp_esas.Prelude.{
  ℕ, zero, suc, ◌+◌, ◌*◌, ◌/◌, ◌%◌, ◌^◌, ◌≤◌, ◌<◌, ◌≡◌, ◌∙◌, sym, refl, ap, subst, arith, bit_or,
  bit_and, List, [], ◌∷◌, ◌++◌, length, drop, get_elem?, none, some, length-append, le→ltb, ◌⊎◌,
  inl, inr,
}
use temp_esas.Bits.{add_low-or, and_low}
use temp_esas.Evm2.BitReader.{
  BitReader, total_bits, advance, read_bit, read_le_loop, read_bits_le, M, ◌>>=◌, return,
}
use temp_esas.Evm2.Stream.Bits.{bits_of, le_bits, length-le_bits, bit_in, bit_in_byte}

stream_bit :
    (bytes : List ℕ) (p x : ℕ) (xs : List ℕ)
    → drop p (bits_of bytes) ≡ x ∷ xs
    → (byte : ℕ) × (get_elem? bytes (p / 8) ≡ some byte) × (bit_in byte (p % 8) ≡ x)
stream_bit [] zero x xs e = ground arith
stream_bit [] (suc p) x xs e = ground arith
stream_bit (b ∷ bytes) (suc (suc (suc (suc (suc (suc (suc (suc p)))))))) x xs e =
    let (byte, found, bit) = stream_bit bytes p x xs e in
    let high : suc (suc (suc (suc (suc (suc (suc (suc p))))))) / 8 ≡ suc (p / 8) = omega arith in
    let low : suc (suc (suc (suc (suc (suc (suc (suc p))))))) % 8 ≡ p % 8 = omega arith in
    (byte, rw high found, rw low bit)
stream_bit (b ∷ bytes) zero x xs e = (b, refl, bit_in_byte b 0 x (bits_of bytes) xs (omega arith) e)
stream_bit (b ∷ bytes) p x xs e = (b, refl, bit_in_byte b p x (bits_of bytes) xs (omega arith) e)

-- `xs` is what `br` has still to give, down to the last bit.
pub record Sees (br : BitReader) (xs : List ℕ) : Type 0 where
  pub ahead : drop br.pos (bits_of br.bytes) ≡ xs
  pub left : br.pos + length xs ≡ total_bits br

drop-suc : (p x : ℕ) (bs xs : List ℕ) → drop p bs ≡ x ∷ xs → drop (p + 1) bs ≡ xs
drop-suc zero x (b ∷ bs) xs e = ground arith
drop-suc zero x [] xs e = ground arith
drop-suc (suc p) x [] xs e = ground arith
drop-suc (suc p) x (b ∷ bs) xs e = rw (shift p) (drop-suc p x bs xs e)
  where
    shift : (p : ℕ) → suc p + 1 ≡ suc (p + 1)
    shift p = omega arith

pub read_bit-Sees :
    (br : BitReader) (x : ℕ) (xs : List ℕ)
    → Sees br (x ∷ xs)
    → (read_bit br ≡ some (x, advance 1 br)) × Sees (advance 1 br) xs
unfolding read_bit
read_bit-Sees br x xs s =
    let (byte, found, bit) = stream_bit br.bytes br.pos x xs s.ahead in
    (
      ground (arith, s.left),
      record { ahead = drop-suc br.pos x _ xs s.ahead; left = omega (arith, s.left) },
    )

pub read_bit-end : (br : BitReader) → Sees br [] → read_bit br ≡ none
unfolding read_bit
read_bit-end br s = ground (arith, s.left)

pub advance-advance : (n m : ℕ) (br : BitReader) → advance m (advance n br) ≡ advance (n + m) br
advance-advance n m br = ap (λ (p : ℕ). record br { pos = p }) (omega arith)

pub advance-zero : (br : BitReader) → advance 0 br ≡ br
advance-zero br = ap (λ (p : ℕ). record br { pos = p }) (omega arith)

-- `m` takes exactly the bits `xs` off any stream that begins with them, and gives `a`.
abbrev pub Parses : {A : Type 0} → M A → List ℕ → A → Type 0
Parses m xs a =
    (br : BitReader) (rest : List ℕ)
    → Sees br (xs ++ rest)
    → (m br ≡ some (a, advance (length xs) br)) × Sees (advance (length xs) br) rest

module _ {A B : Type 0} where
  pub Parses-bind :
      (m : M A) (f : A → M B) (xs ys : List ℕ) {a : A} {b : B}
      → Parses m xs a
      → Parses (f a) ys b
      → Parses (m >>= f) (xs ++ ys) b
  Parses-bind m f xs ys {a} {b} first next br rest s =
      let (e₁, s₁) = first br (ys ++ rest) (rw append_assoc at s) in
      let (e₂, s₂) = next (advance (length xs) br) rest s₁ in
      let same : advance (length ys) (advance (length xs) br) ≡ advance (length (xs ++ ys)) br =
        advance-advance (length xs) (length ys) br
        ∙ ap (λ (n : ℕ). advance n br) (sym (length-append xs ys)) in
      (rw (e₁, ◌>>=◌) (e₂ ∙ ap (λ r. some (b, r)) same), rw same at s₂)

pub Parses-return : {A : Type 0} (a : A) → Parses (return a) [] a
Parses-return a br rest s = (ap (λ r. some (a, r)) (sym (advance-zero br)), rw advance-zero s)

pub Parses-read_bit : (x : ℕ) → Parses read_bit (x ∷ []) x
Parses-read_bit x br rest s = read_bit-Sees br x rest s

two_pow-add_one : (i : ℕ) → 2 ^ (i + 1) ≡ 2 * 2 ^ i
two_pow-add_one i = rw add-one (omega (arith, pow-suc 2 i))

-- One more bit of `x` on top of `v`.
grow_value : (i v x : ℕ) → v + x % 2 % 2 * 2 ^ i + x / 2 * 2 ^ (i + 1) ≡ v + x * 2 ^ i
grow_value i v x = rw (two_pow-add_one i) (omega (arith, ap (λ (t : ℕ). t * 2 ^ i) (halves x)))
  where
    halves : (x : ℕ) → x ≡ x / 2 * 2 + x % 2 % 2
    halves x = omega arith

grow_bound : (i v x : ℕ) → v < 2 ^ i → v + x % 2 % 2 * 2 ^ i < 2 ^ (i + 1)
grow_bound i v x h =
    rw (two_pow-add_one i)
      (elim (bit_cases x) [ inl e ↦ rw e (omega arith) | inr e ↦ rw e (omega arith) ])
  where
    bit_cases : (x : ℕ) → (x % 2 % 2 ≡ 0) ⊎ (x % 2 % 2 ≡ 1)
    bit_cases x = ground arith

below_one : (x : ℕ) → x < 1 → x ≡ 0
below_one x h = omega arith

-- The loop adds the bits of `x`, shifted to where the loop stands, to what it has.
read_le_loop-Parses :
    (n i v x : ℕ)
    → v < 2 ^ i
    → x < 2 ^ n
    → Parses (read_le_loop n i v) (le_bits n x) (v + x * 2 ^ i)
unfolding read_le_loop
read_le_loop-Parses zero i v x hv hx =
    subst (λ (t : ℕ). Parses (return v) [] t)
      (omega (arith, ap (λ (t : ℕ). t * 2 ^ i) (below_one x hx))) (Parses-return v)
read_le_loop-Parses (suc n) i v x hv hx =
    Parses-bind read_bit (λ b. read_le_loop n (i + 1) (bit_or v (bit_and b 1 * 2 ^ i))) (x % 2 ∷ [])
      (le_bits n (x / 2)) (Parses-read_bit (x % 2))
      (rw (and_low 1 (x % 2), add_low-or i (x % 2 % 2) v hv)
        (subst (Parses _ (le_bits n (x / 2))) (grow_value i v x) (
          read_le_loop-Parses n (i + 1) (v + x % 2 % 2 * 2 ^ i) (x / 2) (grow_bound i v x hv)
            (omega (arith, pow-suc 2 n)))))

-- For n > 0, a field of n bits that holds a number below 2^n, the lowest bit first, is read back
-- as that number, and the reader stops right behind the field.
pub read_bits_le-Parses : (n x : ℕ) → 0 < n → x < 2 ^ n → Parses (read_bits_le n) (le_bits n x) x
unfolding read_bits_le
read_bits_le-Parses n x pos hx br rest s =
    rw (le→ltb (total_bits br) (br.pos + n) room)
      (ground (arith, zero_value, read_le_loop-Parses n 0 0 x (omega arith) hx br rest s))
  where
    room : br.pos + n ≤ total_bits br
    room = omega (arith, s.left, length-append (le_bits n x) rest, length-le_bits n x)

    zero_value : 0 + x * 2 ^ 0 ≡ x
    zero_value = omega arith

-- For n > 0, a field of n bits that holds a number below 2^n, the lowest bit first, is read back
-- as that number, on any stream that goes on with its bits, and the reader stops right behind
-- them.
pub read_bits_le-le_bits :
    (n x : ℕ) (br : BitReader) (rest : List ℕ)
    → 0 < n
    → x < 2 ^ n
    → Sees br (le_bits n x ++ rest)
    → (read_bits_le n br ≡ some (x, advance n br)) × Sees (advance n br) rest
read_bits_le-le_bits n x br rest pos hx s =
    subst (λ (k : ℕ). (read_bits_le n br ≡ some (x, advance k br)) × Sees (advance k br) rest)
      (length-le_bits n x) (read_bits_le-Parses n x pos hx br rest s)
