-- ===== src/Host/Slices.antt =====
-- Stretches of memory and of a file.
use temp_esas.Prelude.{
  ℕ, zero, suc, ◌+◌, ◌≤◌, ◌<◌, ◌≡◌, ◌⊎◌, ◌∙◌, refl, true, ap, arith, List, [], ◌∷◌, some, length,
  take, drop, get_elem?, take-append,
}
use temp_esas.Host.Files.{memory_slice, write_slice, overwrite, Host, is_mapped, are_mapped}

pub length-memory_slice : (n a : ℕ) (memory : ℕ → ℕ) → length (memory_slice n a memory) ≡ n
unfolding memory_slice
length-memory_slice zero a memory = refl
length-memory_slice (suc n) a memory = ap suc (length-memory_slice n (a + 1) memory)

pub get_elem?-memory_slice :
    (n a k : ℕ) (memory : ℕ → ℕ)
    → k < n
    → get_elem? (memory_slice n a memory) k ≡ some (memory (a + k))
unfolding memory_slice
get_elem?-memory_slice zero a k memory h = absurd (omega arith)
get_elem?-memory_slice (suc n) a zero memory h = ap (λ (j : ℕ). some (memory j)) (omega arith)
get_elem?-memory_slice (suc n) a (suc k) memory h =
    get_elem?-memory_slice n (a + 1) k memory (omega arith)
    ∙ ap (λ (j : ℕ). some (memory j)) (omega arith)

-- A byte that is written, and one that is not.
pub write_slice-inside :
    (bytes : List ℕ) (a k b : ℕ) (memory : ℕ → ℕ)
    → get_elem? bytes k ≡ some b
    → write_slice bytes a memory (a + k) ≡ b
unfolding write_slice
write_slice-inside [] a k b memory e = ground arith
write_slice-inside (c ∷ bytes) a zero b memory e = ground arith
write_slice-inside (c ∷ bytes) a (suc k) b memory e =
    let next : a + suc k ≡ a + 1 + k = omega arith in
    rw next (ground (arith, write_slice-inside bytes (a + 1) k b memory e))

pub write_slice-outside :
    (bytes : List ℕ) (a at : ℕ) (memory : ℕ → ℕ)
    → (at < a) ⊎ (a + length bytes ≤ at)
    → write_slice bytes a memory at ≡ memory at
unfolding write_slice
write_slice-outside [] a at memory h = refl
write_slice-outside (c ∷ bytes) a at memory h =
    ground (arith, write_slice-outside bytes (a + 1) at memory)

-- What is written is what is there afterwards.
pub take-drop-overwrite :
    (ofs : ℕ) (chunk bytes : List ℕ)
    → take (length chunk) (drop ofs (overwrite ofs chunk bytes)) ≡ chunk
unfolding overwrite
take-drop-overwrite zero chunk bytes = take-append chunk (drop (length chunk) bytes)
take-drop-overwrite (suc ofs) chunk [] = take-drop-overwrite ofs chunk []
take-drop-overwrite (suc ofs) chunk (b ∷ bytes) = take-drop-overwrite ofs chunk bytes

pub length-take_le : (n : ℕ) (xs : List ℕ) → length (take n xs) ≤ n
length-take_le zero xs = omega arith
length-take_le (suc n) [] = omega arith
length-take_le (suc n) (x ∷ xs) = omega (arith, length-take_le n xs)

-- Mapped bytes one by one, and those of the guest.
pub are_mapped_lem :
    (n a : ℕ) (h : Host) → are_mapped n a h ≡ true → (k : ℕ) → k < n → is_mapped h (a + k) ≡ true
unfolding are_mapped
are_mapped_lem zero a h all k lt = absurd (omega arith)
are_mapped_lem (suc n) a h all zero lt =
    let same : a + 0 ≡ a = omega arith in rw same (ground arith)
are_mapped_lem (suc n) a h all (suc k) lt =
    let next : a + suc k ≡ a + 1 + k = omega arith in
    rw next (are_mapped_lem n (a + 1) h (ground arith) k (omega arith))

pub are_mapped-guest : (n a : ℕ) (h : Host) → a + n ≤ h.limit → are_mapped n a h ≡ true
unfolding are_mapped
are_mapped-guest zero a h inside = refl
are_mapped-guest (suc n) a h inside = ground (arith, are_mapped-guest n (a + 1) h)

pub get_elem?-drop :
    (ofs k : ℕ) (bytes : List ℕ) → get_elem? (drop ofs bytes) k ≡ get_elem? bytes (ofs + k)
get_elem?-drop zero k bytes = ap (λ (j : ℕ). get_elem? bytes j) (omega arith)
get_elem?-drop (suc ofs) k [] = refl
get_elem?-drop (suc ofs) k (b ∷ bytes) =
    let next : suc ofs + k ≡ suc (ofs + k) = omega arith in rw next (get_elem?-drop ofs k bytes)

pub get_elem?-take :
    (n k : ℕ) (bytes : List ℕ)
    → k < length (take n bytes)
    → (b : ℕ) × (get_elem? (take n bytes) k ≡ some b) × (get_elem? bytes k ≡ some b)
get_elem?-take zero k bytes lt = absurd (omega arith)
get_elem?-take (suc n) k [] lt = absurd (omega arith)
get_elem?-take (suc n) zero (b ∷ bytes) lt = (b, refl, refl)
get_elem?-take (suc n) (suc k) (b ∷ bytes) lt = get_elem?-take n k bytes (omega arith)
