-- ===== src/Evm2/Image.antt =====
-- The constructor of `Disassembler` (evm2.h): the header's checks, and the two copies out of the
-- file. `readFile` is the file system's: the model begins with the bytes of the file.
use temp_esas.Prelude.{
  ℕ, ◌+◌, List, [], ◌∷◌, ◌++◌, Option, none, some, ◌==◌, ltb, not, Bool, true, false, ◌&&◌,
  if◌then◌else◌, length, take, drop, replicate,
}
use temp_esas.Bits.{◌<<<◌, ◌|||◌}
use temp_esas.Evm2.Types.{Instruction}
use temp_esas.Evm2.Disassembler.{disassemble_code}

-- `struct Header`; the layout of the three words is the target's, little-endian.
pub record Header : Type 0 where
  pub magic : List ℕ
  pub code_size : ℕ
  pub data_size : ℕ
  pub initial_data_size : ℕ

-- `sizeof(Header)`: eight characters and three words.
abbrev pub header_size : ℕ
header_size = 20

pub record Image : Type 0 where
  pub header : Header
  pub code : List ℕ
  pub memory : List ℕ

-- The `runtime_error`s, and `overrun` for a copy past the end of its target, which C++ leaves
-- undefined.
pub data Outcome (A : Type 0) : Type 0 where
  ok : A → Outcome A
  too_small invalid_magic truncated overrun : Outcome A

-- The bytes of "ESET-VM2".
abbrev pub magic_number : List ℕ
magic_number = b'E' ∷ b'S' ∷ b'E' ∷ b'T' ∷ b'-' ∷ b'V' ∷ b'M' ∷ b'2' ∷ []

abbrev pub same_bytes : List ℕ → List ℕ → Bool
same_bytes [] [] = true
same_bytes (x ∷ xs) (y ∷ ys) = x == y && same_bytes xs ys
same_bytes _ _ = false

-- A little-endian word out of the header, four bytes from the front.
abbrev pub read_le32 : List ℕ → ℕ
read_le32 (a ∷ b ∷ c ∷ d ∷ rest) = a ||| b <<< 8 ||| c <<< 16 ||| d <<< 24
read_le32 _ = 0

-- `memcpy(&mHeader, file.data(), sizeof(mHeader))`.
unfoldable pub read_header : List ℕ → Header
read_header file = record {
  magic = take 8 file;
  code_size = read_le32 (drop 8 file);
  data_size = read_le32 (drop 12 file);
  initial_data_size = read_le32 (drop 16 file);
}

-- `memcpy` of `source` to the front of `target`: no more than `target` holds.
unfoldable pub copy_to_front : List ℕ → List ℕ → Option (List ℕ)
copy_to_front target source =
    if ltb (length target) (length source)
    then none
    else some (source ++ drop (length source) target)

-- `mData.resize(dataSize)` fills with zeros; then the initial data is copied over its front.
unfoldable pub load_data : Header → List ℕ → Outcome (List ℕ)
load_data h initial = elim (copy_to_front (replicate h.data_size 0) initial) [
  | none ↦ overrun
  | some memory ↦ ok memory
]

-- The checks on the file's size, and the data behind the code.
unfoldable pub load_sections : Header → List ℕ → Outcome Image
load_sections h file =
    if ltb (length file) (header_size + h.code_size)
    then truncated
    else if not (length file == header_size + h.code_size + h.initial_data_size)
    then truncated
    else elim (load_data h (take h.initial_data_size (drop (header_size + h.code_size) file))) [
      | ok memory ↦
          ok (record {
            header = h;
            code = take h.code_size (drop header_size file);
            memory = memory;
          })
      | too_small ↦ too_small
      | invalid_magic ↦ invalid_magic
      | truncated ↦ truncated
      | overrun ↦ overrun
    ]

unfoldable pub load_image : List ℕ → Outcome Image
load_image file =
    if ltb (length file) header_size
    then too_small
    else if same_bytes (read_header file).magic magic_number
    then load_sections (read_header file) file
    else invalid_magic

-- What the constructor leaves behind: the image and its instructions.
unfoldable pub disassembler : List ℕ → Outcome (Image × Option (List Instruction))
disassembler file = elim (load_image file) [
  | ok image ↦ ok (image, disassemble_code image.code)
  | too_small ↦ too_small
  | invalid_magic ↦ invalid_magic
  | truncated ↦ truncated
  | overrun ↦ overrun
]
