-- ===== src/Assembler/Program/Bytes.antt =====
-- How `build` groups the bits into bytes, and that no bit is lost.
use temp_esas.Prelude.{
  ℕ, zero, suc, ◌+◌, ◌-◌, ◌*◌, ◌/◌, ◌%◌, ◌<◌, ◌≡◌, refl, arith, List, [], ◌∷◌, ◌++◌, ◌==◌,
  if◌then◌else◌, length, replicate, length-append, length-replicate, Bool-cases, inl, inr,
}
use mathlib.Core.List.{append-nil}
use temp_esas.Evm2.Stream.Bits.{bits_of, le_bits}

-- `int("".join(bits), 2)`.
abbrev pub int_of : ℕ → List ℕ → ℕ
int_of v [] = v
int_of v (b ∷ bits) = int_of (v * 2 + b) bits

-- The last byte is filled up with zero bits.
unfoldable pub pad_bits : List ℕ → List ℕ
pad_bits bits = if length bits % 8 == 0 then bits else bits ++ replicate (8 - length bits % 8) 0

-- The loop over `range(0, len(bytecode), 8)`; a slice at the end may be shorter.
unfoldable pub pack_bytes : List ℕ → List ℕ
pack_bytes (a ∷ b ∷ c ∷ d ∷ e ∷ f ∷ g ∷ h ∷ bits) =
    int_of 0 (a ∷ b ∷ c ∷ d ∷ e ∷ f ∷ g ∷ h ∷ []) ∷ pack_bytes bits
pack_bytes [] = []
pack_bytes bits = int_of 0 bits ∷ []

abbrev pub AreBits : List ℕ → Type 0
AreBits [] = Unit {0}
AreBits (b ∷ bits) = (b < 2) × AreBits bits

pub bits_of-pack_bytes :
    (bits : List ℕ) → AreBits bits → length bits % 8 ≡ 0 → bits_of (pack_bytes bits) ≡ bits
unfolding pack_bytes
bits_of-pack_bytes (a ∷ b ∷ c ∷ d ∷ e ∷ f ∷ g ∷ h ∷ bits) are len =
    ground (arith, bits_of-pack_bytes bits)
bits_of-pack_bytes [] are len = refl
bits_of-pack_bytes _ are len = absurd (omega arith)

pub AreBits-append : (xs ys : List ℕ) → AreBits xs → AreBits ys → AreBits (xs ++ ys)
AreBits-append [] ys hx hy = hy
AreBits-append (x ∷ xs) ys (h, hx) hy = (h, AreBits-append xs ys hx hy)

AreBits-zeros : (k : ℕ) → AreBits (replicate k 0)
AreBits-zeros zero = tt
AreBits-zeros (suc k) = (omega arith, AreBits-zeros k)

pub AreBits-pad_bits : (bits : List ℕ) → AreBits bits → AreBits (pad_bits bits)
unfolding pad_bits
AreBits-pad_bits bits h = elim (Bool-cases (length bits % 8 == 0)) [
  | inl e ↦ rw e h
  | inr e ↦ rw e (AreBits-append bits _ h (AreBits-zeros (8 - length bits % 8)))
]

-- Fewer than eight zero bits make the length a multiple of eight.
pub pad_bits-padding :
    (bits : List ℕ)
    → (k : ℕ) × (k < 8) × (pad_bits bits ≡ bits ++ replicate k 0) × (length (pad_bits bits) % 8 ≡ 0)
unfolding pad_bits
pad_bits-padding bits = elim (Bool-cases (length bits % 8 == 0)) [
  | inl e ↦ (0, omega arith, rw (e, append-nil), ground arith)
  | inr e ↦ (
    8 - length bits % 8,
    ground arith,
    rw e,
    ground (
      arith,
      length-append bits (replicate (8 - length bits % 8) 0),
      length-replicate {0} {A = ℕ} (8 - length bits % 8) 0,
    ),
  )
]

pub AreBits-le_bits : (w v : ℕ) → AreBits (le_bits w v)
AreBits-le_bits zero v = tt
AreBits-le_bits (suc w) v = (omega arith, AreBits-le_bits w (v / 2))
