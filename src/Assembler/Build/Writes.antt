-- ===== src/Assembler/Build/Writes.antt =====
-- What `__apply_patches` (res/compiler.py) leaves of the bits around a patch.
use temp_esas.Prelude.{
  ℕ, zero, suc, ◌+◌, ◌≤◌, ◌<◌, ◌≡◌, ◌∙◌, ap, sym, refl, subst, arith, List, [], ◌∷◌, ◌++◌, length,
  length-append, set, length-set,
}
use mathlib.Core.List.{append_assoc}
use temp_esas.Assembler.Encode.{format_rev}
use temp_esas.Assembler.Build.{write_bits}

set-append : (xs ys : List ℕ) (n v : ℕ) → n < length xs → set (xs ++ ys) n v ≡ set xs n v ++ ys
set-append [] ys n v h = absurd (omega arith)
set-append (x ∷ xs) ys zero v h = refl
set-append (x ∷ xs) ys (suc n) v h = ap (λ (l : List ℕ). x ∷ l) (set-append xs ys n v (omega arith))

set-length :
    (xs : List ℕ) (old v : ℕ) (ys : List ℕ)
    → set (xs ++ old ∷ ys) (length xs) v ≡ (xs ++ v ∷ []) ++ ys
set-length [] old v ys = refl
set-length (x ∷ xs) old v ys = ap (λ (l : List ℕ). x ∷ l) (set-length xs old v ys)

pub length-write_bits :
    (position : ℕ) (bits code : List ℕ) → length (write_bits position bits code) ≡ length code
unfolding write_bits
length-write_bits position [] code = refl
length-write_bits position (bit ∷ bits) code =
    length-write_bits (position + 1) bits (set code position bit) ∙ length-set code position bit

pub write_bits-append :
    (position : ℕ) (bits xs ys : List ℕ)
    → position + length bits ≤ length xs
    → write_bits position bits (xs ++ ys) ≡ write_bits position bits xs ++ ys
unfolding write_bits
write_bits-append position [] xs ys h = refl
write_bits-append position (bit ∷ bits) xs ys h =
    ap (λ (l : List ℕ). write_bits (position + 1) bits l)
      (set-append xs ys position bit (omega arith))
    ∙ write_bits-append (position + 1) bits (set xs position bit) ys
        (omega (arith, length-set xs position bit))

-- Bits at the end are replaced by as many.
pub write_bits-end :
    (xs bits old : List ℕ)
    → length old ≡ length bits
    → write_bits (length xs) bits (xs ++ old) ≡ xs ++ bits
unfolding write_bits
write_bits-end xs [] [] h = refl
write_bits-end xs [] (o ∷ old) h = absurd (omega arith)
write_bits-end xs (bit ∷ bits) [] h = absurd (omega arith)
write_bits-end xs (bit ∷ bits) (o ∷ old) h =
    ap (λ (l : List ℕ). write_bits (length xs + 1) bits l) (set-length xs o bit old)
    ∙ ap (λ (n : ℕ). write_bits n bits ((xs ++ bit ∷ []) ++ old))
        (sym (length-append xs (bit ∷ [])))
    ∙ write_bits-end (xs ++ bit ∷ []) bits old (omega arith)
    ∙ append_assoc xs (bit ∷ []) bits

-- All patches, where every label has an address.
unfoldable pub patch_bits : (ℕ → ℕ) → List (ℕ × ℕ) → List ℕ → List ℕ
patch_bits address [] code = code
patch_bits address ((position, l) ∷ patches) code =
    patch_bits address patches (write_bits position (format_rev 32 (address l)) code)

-- Each patch is inside `n` bits.
abbrev pub AreInside : List (ℕ × ℕ) → ℕ → Type 0
AreInside [] n = Unit {0}
AreInside ((position, l) ∷ patches) n = (position + 32 ≤ n) × AreInside patches n

pub AreInside-more :
    (patches : List (ℕ × ℕ)) (n m : ℕ) → n ≤ m → AreInside patches n → AreInside patches m
AreInside-more [] n m h inside = tt
AreInside-more ((position, l) ∷ patches) n m h (here, more) =
    (omega arith, AreInside-more patches n m h more)

pub AreInside-snoc :
    (patches : List (ℕ × ℕ)) (n position l : ℕ)
    → AreInside patches n
    → position + 32 ≤ n
    → AreInside (patches ++ (position, l) ∷ []) n
AreInside-snoc [] n position l inside h = (h, tt)
AreInside-snoc (p ∷ patches) n position l (here, more) h =
    (here, AreInside-snoc patches n position l more h)

pub patch_bits-snoc :
    (address : ℕ → ℕ) (patches : List (ℕ × ℕ)) (position l : ℕ) (code : List ℕ)
    → patch_bits address (patches ++ (position, l) ∷ []) code
      ≡ write_bits position (format_rev 32 (address l)) (patch_bits address patches code)
unfolding patch_bits
patch_bits-snoc address [] position l code = refl
patch_bits-snoc address ((p, k) ∷ patches) position l code =
    patch_bits-snoc address patches position l (write_bits p (format_rev 32 (address k)) code)

pub length-patch_bits :
    (address : ℕ → ℕ) (patches : List (ℕ × ℕ)) (code : List ℕ)
    → length (patch_bits address patches code) ≡ length code
unfolding patch_bits
length-patch_bits address [] code = refl
length-patch_bits address ((p, k) ∷ patches) code =
    length-patch_bits address patches (write_bits p (format_rev 32 (address k)) code)
    ∙ length-write_bits p (format_rev 32 (address k)) code

pub patch_bits-append :
    (address : ℕ → ℕ) (patches : List (ℕ × ℕ)) (xs ys : List ℕ)
    → ((l : ℕ) → length (format_rev 32 (address l)) ≡ 32)
    → AreInside patches (length xs)
    → patch_bits address patches (xs ++ ys) ≡ patch_bits address patches xs ++ ys
unfolding patch_bits
patch_bits-append address [] xs ys wide inside = refl
patch_bits-append address ((p, k) ∷ patches) xs ys wide (here, more) =
    let word = format_rev 32 (address k) in
    ap (λ (l : List ℕ). patch_bits address patches l)
      (write_bits-append p word xs ys (omega (arith, wide k)))
    ∙ patch_bits-append address patches (write_bits p word xs) ys wide
        (subst (λ (n : ℕ). AreInside patches n) (sym (length-write_bits p word xs)) more)
