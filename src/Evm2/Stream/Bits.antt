-- ===== src/Evm2/Stream/Bits.antt =====
-- A byte vector as the list of its bits, and the fields that a stream is made of.
use temp_esas.Prelude.{
  ℕ, zero, suc, ◌-◌, ◌*◌, ◌/◌, ◌%◌, ◌<◌, ◌≡◌, refl, ap, arith, List, [], ◌∷◌, ◌++◌, length, drop,
}
use temp_esas.Bits.{◌>>>◌, ◌&&&◌, and_low}

abbrev pub byte_bits : ℕ → List ℕ
byte_bits b =
    b / 128 % 2
    ∷ b / 64 % 2
    ∷ b / 32 % 2
    ∷ b / 16 % 2
    ∷ b / 8 % 2
    ∷ b / 4 % 2
    ∷ b / 2 % 2
    ∷ b % 2
    ∷ []

abbrev pub bits_of : List ℕ → List ℕ
bits_of [] = []
bits_of (b ∷ bytes) = byte_bits b ++ bits_of bytes

pub length-bits_of : (bytes : List ℕ) → length (bits_of bytes) ≡ length bytes * 8
length-bits_of [] = refl
length-bits_of (b ∷ bytes) = omega (arith, length-bits_of bytes)

-- The low `w` bits of a number, the lowest first.
abbrev pub le_bits : ℕ → ℕ → List ℕ
le_bits zero v = []
le_bits (suc w) v = v % 2 ∷ le_bits w (v / 2)

pub length-le_bits : (w v : ℕ) → length (le_bits w v) ≡ w
length-le_bits zero v = refl
length-le_bits (suc w) v = ap suc (length-le_bits w (v / 2))

-- The bit that `readBit` takes out of a byte.
abbrev pub bit_in : ℕ → ℕ → ℕ
bit_in byte i = byte >>> (7 - i) &&& 1

pub bit_in_byte :
    (b i x : ℕ) (rest xs : List ℕ) → i < 8 → drop i (byte_bits b ++ rest) ≡ x ∷ xs → bit_in b i ≡ x
bit_in_byte b zero x rest xs h e = ground (arith, and_low 1 (b / 128))
bit_in_byte b (suc zero) x rest xs h e = ground (arith, and_low 1 (b / 64))
bit_in_byte b (suc (suc zero)) x rest xs h e = ground (arith, and_low 1 (b / 32))
bit_in_byte b (suc (suc (suc zero))) x rest xs h e = ground (arith, and_low 1 (b / 16))
bit_in_byte b (suc (suc (suc (suc zero)))) x rest xs h e = ground (arith, and_low 1 (b / 8))
bit_in_byte b (suc (suc (suc (suc (suc zero))))) x rest xs h e = ground (arith, and_low 1 (b / 4))
bit_in_byte b (suc (suc (suc (suc (suc (suc zero)))))) x rest xs h e =
    ground (arith, and_low 1 (b / 2))
bit_in_byte b (suc (suc (suc (suc (suc (suc (suc zero))))))) x rest xs h e =
    ground (arith, and_low 1 (b / 1))
bit_in_byte b (suc (suc (suc (suc (suc (suc (suc (suc i)))))))) x rest xs h e = absurd (omega arith)
