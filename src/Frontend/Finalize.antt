-- ===== src/Frontend/Finalize.antt =====
-- `getCodeSize`, `finalize` and the destructor of `ARM64JITFrontend` (jit_arm64_fe.h): the words go to
-- memory of the system that can be executed. `sysconf`, `mmap` and `mprotect` are parameters.
use temp_esas.Prelude.{
  ℕ, ◌+◌, ◌-◌, ◌*◌, ◌/◌, ◌%◌, ◌^◌, ◌≤◌, ◌<◌, ◌≡◌, ◌≢◌, ◌⊎◌, List, [], ◌∷◌, Option, none, some, Bool,
  true, false, ◌==◌, length, get_elem?,
}
use temp_esas.Bits.{◌&&&◌}

-- The page size; where `mmap` puts a new region of a size, if it does; whether `mprotect` can make a
-- region executable.
pub record System : Type 0 where
  pub page_size : ℕ
  pub mmap : ℕ → Option ℕ
  pub mprotect : ℕ → ℕ → Bool

-- A mapped region, with its bytes from its address on.
pub record Region : Type 0 where
  pub address : ℕ
  pub size : ℕ
  pub bytes : ℕ → ℕ
  pub executable : Bool

-- The fields of the front end other than the code; a null pointer is 0.
pub record Output : Type 0 where
  pub executable_memory : ℕ
  pub executable_size : ℕ

abbrev pub map_failed : ℕ
map_failed = 2 ^ 64 - 1

abbrev pub get_code_size : List ℕ → ℕ
get_code_size code = length code * 4

unfoldable pub rounded_size : ℕ → ℕ → ℕ
rounded_size page_size code_size = code_size + page_size - 1 &&& 2 ^ 64 - 1 - (page_size - 1)

-- `memcpy` of the words, the lowest byte of each first, into fresh pages.
abbrev pub code_byte : List ℕ → ℕ → ℕ
code_byte code a = elim (get_elem? code (a / 4)) [ none ↦ 0 | some w ↦ w / 2 ^ (8 * (a % 4)) % 256 ]

unfoldable pub munmap : ℕ → List Region → List Region
munmap address [] = []
munmap address (r ∷ regions) = elim (r.address == address) [
  | true ↦ regions
  | false ↦ r ∷ munmap address regions
]

abbrev pub code_region : ℕ → ℕ → List ℕ → Bool → Region
code_region address size code executable = record {
  address = address;
  size = size;
  bytes = code_byte code;
  executable = executable;
}

-- The second half, once there is memory.
abbrev pub protect_code : System → List ℕ → ℕ → ℕ → List Region → ℕ × (Output × List Region)
protect_code sys code size address regions = elim (sys.mprotect address size) [
  | true ↦ (
    address,
    (
      record { executable_memory = address; executable_size = size },
      code_region address size code true ∷ regions,
    ),
  )
  | false ↦ (
    0,
    (
      record { executable_memory = 0; executable_size = size },
      munmap address (code_region address size code false ∷ regions),
    ),
  )
]

-- The pointer that is returned, the fields, and the regions then.
unfoldable pub finalize : System → List ℕ → List Region → ℕ × (Output × List Region)
finalize sys code regions =
    let size = rounded_size sys.page_size (get_code_size code) in
    elim (sys.mmap size) [
      | none ↦ (0, (record { executable_memory = map_failed; executable_size = size }, regions))
      | some address ↦ protect_code sys code size address regions
    ]

-- The destructor.
abbrev pub destroy : Output → List Region → List Region
destroy out regions = elim (out.executable_memory == 0) [
  | true ↦ regions
  | false ↦ munmap out.executable_memory regions
]

-- A word of a region, as the processor fetches it.
abbrev pub fetch : Region → ℕ → ℕ
fetch r n =
    r.bytes (4 * n)
    + 2 ^ 8 * r.bytes (4 * n + 1)
    + 2 ^ 16 * r.bytes (4 * n + 2)
    + 2 ^ 24 * r.bytes (4 * n + 3)

-- No region is at the address.
abbrev pub IsUnmapped : ℕ → List Region → Type 0
IsUnmapped address [] = Unit {0}
IsUnmapped address (r ∷ regions) = (r.address ≢ address) × IsUnmapped address regions

-- The region has the code, in whole pages, and may be executed.
pub record Runnable (page_size : ℕ) (code : List ℕ) (r : Region) : Type 0 where
  pub executable : r.executable ≡ true
  pub room : get_code_size code ≤ r.size
  pub tight : r.size < get_code_size code + page_size
  pub words : (n w : ℕ) → get_elem? code n ≡ some w → w < 2 ^ 32 → fetch r n ≡ w

-- A null pointer, with nothing mapped, or the address of a new region with the code.
abbrev pub Finalized : ℕ → List ℕ → ℕ → List Region → List Region → Type 0
Finalized page_size code func regions after =
    ((func ≡ 0) × (after ≡ regions))
    ⊎ ((r : Region) × (func ≡ r.address) × (after ≡ r ∷ regions) × Runnable page_size code r)

module _ (sys : System) (code : List ℕ) (regions : List Region) (k : ℕ)
    (page : sys.page_size ≡ 2 ^ k) (hk : k ≤ 32) (small : length code < 2 ^ 30) where
  abbrev size : ℕ
  size = rounded_size sys.page_size (get_code_size code)
