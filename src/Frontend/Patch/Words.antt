-- ===== src/Frontend/Patch/Words.antt =====
-- The four kinds of words that are patched, and what the masks of the patch leave of them.
use temp_esas.Prelude.{ℕ, ◌+◌, ◌*◌, ◌/◌, ◌%◌, ◌^◌, ◌<◌, ◌≡◌, refl, arith, bit_and, bit_or, some}
use temp_esas.Bits.{and_field, and_low, or-add}
use temp_esas.Masks.{and_split, and_top, or_gap}
use temp_esas.Arm64.Word.{sub32}
use temp_esas.Frontend.Patch.{patched, not32}

-- The top byte alone, and the top six bits alone.
top_byte :
    (w top low : ℕ)
    → w ≡ 2 ^ 24 * top + low
    → top < 256
    → low < 2 ^ 24
    → bit_and w 0xFF000000 ≡ 2 ^ 24 * top
top_byte w top low e ht hl = rw e (and_top 24 8 top low ht hl)

top_six :
    (w top low : ℕ)
    → w ≡ 2 ^ 26 * top + low
    → top < 64
    → low < 2 ^ 26
    → bit_and w 0xFC000000 ≡ 2 ^ 26 * top
top_six w top low e ht hl = rw e (and_top 26 6 top low ht hl)

-- The difference of the indices that every branch is patched with.
abbrev pub displacement : ℕ → ℕ → ℕ
displacement index target = sub32 (target % 2 ^ 32) (index % 2 ^ 32)

-- `inst & 0xFF00001F` keeps the top byte and the condition.
keep_condition :
    (old c : ℕ)
    → old < 2 ^ 19
    → c < 16
    → bit_and (0x54000000 + old * 2 ^ 5 + c) 0xFF00001F ≡ 0x54000000 + c
keep_condition old c h hc = ground (
  arith,
  and_split 5 (0x54 * 2 ^ 19 + old) (0xFF * 2 ^ 19) c 31,
  and_top 19 8 0x54 old,
  and_field 5 c,
)

put_offset :
    (o c : ℕ)
    → o < 2 ^ 19
    → c < 16
    → bit_or (0x54000000 + c) (o * 2 ^ 5) ≡ 0x54000000 + o * 2 ^ 5 + c
put_offset o c ho hc = ground (arith, or_gap 5 19 (0x54 * 2 ^ 19) o c)

-- `inst & ~(0xffff << 5)` empties the immediate.
keep_movz :
    (hw old reg : ℕ)
    → hw < 4
    → old < 2 ^ 16
    → reg < 32
    → bit_and (0xD2800000 + hw * 2 ^ 21 + old * 2 ^ 5 + reg) (not32 (0xFFFF * 2 ^ 5))
      ≡ 0xD2800000 + hw * 2 ^ 21 + reg
keep_movz hw old reg hh ho hr = ground (
  arith,
  and_split 5 ((0x694 + hw) * 2 ^ 16 + old) (0x7FF * 2 ^ 16) reg 31,
  and_top 16 11 (0x694 + hw) old,
  and_field 5 reg,
)

module _ (index target : ℕ) where
  -- `b`.
  pub patched-b :
      (old : ℕ)
      → old < 2 ^ 26
      → patched (0x14000000 + old) index target
        ≡ some (0x14000000 + displacement index target % 2 ^ 26)
  unfolding patched
  patched-b old h = ground (
    arith,
    top_byte (0x14000000 + old) (0x14 + old / 2 ^ 24) (old % 2 ^ 24) (omega arith) (omega arith)
        (omega arith),
    top_six (0x14000000 + old) 0x05 old (omega arith) (omega arith) h,
    and_low 26 (displacement index target),
    or-add 26 0x14000000 (displacement index target % 2 ^ 26) refl (omega arith),
  )

  -- `bl`.
  pub patched-bl :
      (old : ℕ)
      → old < 2 ^ 26
      → patched (0x94000000 + old) index target
        ≡ some (0x94000000 + displacement index target % 2 ^ 26)
  unfolding patched
  patched-bl old h = ground (
    arith,
    top_byte (0x94000000 + old) (0x94 + old / 2 ^ 24) (old % 2 ^ 24) (omega arith) (omega arith)
        (omega arith),
    top_six (0x94000000 + old) 0x25 old (omega arith) (omega arith) h,
    and_low 26 (displacement index target),
    or-add 26 0x94000000 (displacement index target % 2 ^ 26) refl (omega arith),
  )

  -- `b.cond`: the condition stays.
  pub patched-bcond :
      (old c : ℕ)
      → old < 2 ^ 19
      → c < 16
      → patched (0x54000000 + old * 2 ^ 5 + c) index target
        ≡ some (0x54000000 + displacement index target % 2 ^ 19 * 2 ^ 5 + c)
  unfolding patched
  patched-bcond old c h hc = ground (
    arith,
    top_byte (0x54000000 + old * 2 ^ 5 + c) 0x54 (old * 2 ^ 5 + c) (omega arith) (omega arith)
        (omega arith),
    keep_condition old c h hc,
    and_low 19 (displacement index target),
    put_offset (displacement index target % 2 ^ 19) c (omega arith) hc,
  )

  -- `movz` of a word below 2^16: the register and the shift stay.
  pub patched-movz :
      (hw old reg : ℕ)
      → hw < 4
      → old < 2 ^ 16
      → reg < 32
      → target < 2 ^ 16
      → patched (0xD2800000 + hw * 2 ^ 21 + old * 2 ^ 5 + reg) index target
        ≡ some (0xD2800000 + hw * 2 ^ 21 + target * 2 ^ 5 + reg)
  unfolding patched
  patched-movz hw old reg hh ho hr ht = ground (
    arith,
    top_byte (0xD2800000 + hw * 2 ^ 21 + old * 2 ^ 5 + reg) 0xD2
        (2 ^ 23 + hw * 2 ^ 21 + old * 2 ^ 5 + reg) (omega arith) (omega arith) (omega arith),
    and_low 16 target,
    keep_movz hw old reg hh ho hr,
    or_gap 5 16 ((0x694 + hw) * 2 ^ 16) target reg,
  )

  -- A `movz` is patched only with a target that fits.
  pub patched-movz_fits :
      (hw old reg w : ℕ)
      → hw < 4
      → old < 2 ^ 16
      → reg < 32
      → patched (0xD2800000 + hw * 2 ^ 21 + old * 2 ^ 5 + reg) index target ≡ some w
      → target < 2 ^ 16
  unfolding patched
  patched-movz_fits hw old reg w hh ho hr e = ground (
    arith,
    top_byte (0xD2800000 + hw * 2 ^ 21 + old * 2 ^ 5 + reg) 0xD2
        (2 ^ 23 + hw * 2 ^ 21 + old * 2 ^ 5 + reg) (omega arith) (omega arith) (omega arith),
    and_low 16 target,
  )
