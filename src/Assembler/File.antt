-- ===== src/Assembler/File.antt =====
-- The file that `build` writes (res/compiler.py), and the constructor of `Disassembler` on it.
use temp_esas.Prelude.{
  ℕ, ◌+◌, ◌-◌, ◌*◌, ◌/◌, ◌%◌, ◌^◌, ◌≤◌, ◌<◌, ◌≡◌, arith, List, [], ◌∷◌, ◌++◌, some, length,
  replicate, take, drop, length-append, length-replicate, take-append, drop-append, take-length,
  drop-add, drop-replicate, ltb, if◌then◌else◌,
}
use temp_esas.Bits.{add_low-or}
use temp_esas.Evm2.Image.{
  Header, Image, ok, magic_number, read_le32, read_header, copy_to_front, load_data, load_sections,
  load_image, disassembler,
}
use temp_esas.Assembler.Encode.{AsmInstr}
use temp_esas.Assembler.Program.{
  AreWellFormed, code_bytes, lower_program, disassemble_code-code_bytes,
}

-- `struct.pack("I", n)` of a number below 2^32.
abbrev pub pack_word : ℕ → List ℕ
pack_word n = n % 256 ∷ n / 2 ^ 8 % 256 ∷ n / 2 ^ 16 % 256 ∷ n / 2 ^ 24 % 256 ∷ []

-- A `.dataSize` below the data that is there is expanded.
abbrev pub expanded_size : ℕ → List ℕ → ℕ
expanded_size data_size initial =
    if ltb data_size (length initial) then length initial else data_size

unfoldable pub build_file : List ℕ → ℕ → List ℕ → List ℕ
build_file code data_size initial =
    magic_number
    ++ (pack_word (length code)
        ++ (pack_word (expanded_size data_size initial)
            ++ (pack_word (length initial) ++ (code ++ initial))))

read_le32-pack_word : (n : ℕ) → n < 2 ^ 32 → read_le32 (pack_word n) ≡ n
read_le32-pack_word n h =
    rw
      (
        add_low-or 8 (n / 2 ^ 8 % 256) (n % 256) (omega arith),
        add_low-or 16 (n / 2 ^ 16 % 256) (n % 256 + n / 2 ^ 8 % 256 * 2 ^ 8) (omega arith),
        add_low-or 24 (n / 2 ^ 24 % 256)
            (n % 256 + n / 2 ^ 8 % 256 * 2 ^ 8 + n / 2 ^ 16 % 256 * 2 ^ 16) (omega arith),
      )
      (omega arith)

-- The initial data at the front of zeros.
copy_to_front-replicate :
    (size : ℕ) (initial : List ℕ)
    → length initial ≤ size
    → copy_to_front (replicate size 0) initial
      ≡ some (initial ++ replicate (size - length initial) 0)
unfolding copy_to_front
copy_to_front-replicate size initial h =
    ground (
      arith,
      length-replicate {0} {A = ℕ} size 0,
      drop-replicate {0} {A = ℕ} (length initial) size 0,
    )

module _ (code : List ℕ) (data_size : ℕ) (initial : List ℕ) where
  abbrev pub built_header : Header
  built_header = record {
    magic = magic_number;
    code_size = length code;
    data_size = expanded_size data_size initial;
    initial_data_size = length initial;
  }

  -- The image that the file holds: the code, and the initial data followed by zeros.
  abbrev pub built_image : Image
  built_image = record {
    header = built_header;
    code = code;
    memory = initial ++ replicate (expanded_size data_size initial - length initial) 0;
  }

module _ (code : List ℕ) (data_size : ℕ) (initial : List ℕ) (h_code : length code < 2 ^ 32)
    (h_size : data_size < 2 ^ 32) (h_initial : length initial < 2 ^ 32) where
  expanded_size-lt : expanded_size data_size initial < 2 ^ 32
  expanded_size-lt = ground arith

  expanded_size-le : length initial ≤ expanded_size data_size initial
  expanded_size-le = ground arith

  read_header-build_file :
      read_header (build_file code data_size initial) ≡ built_header code data_size initial
  unfolding read_header build_file
  read_header-build_file = λ i. record {
    magic = magic_number;
    code_size = read_le32-pack_word (length code) h_code i;
    data_size = read_le32-pack_word (expanded_size data_size initial) expanded_size-lt i;
    initial_data_size = read_le32-pack_word (length initial) h_initial i;
  }

  length-build_file : length (build_file code data_size initial) ≡ 20 + length code + length initial
  unfolding build_file
  length-build_file = omega (arith, length-append code initial)

  load_data-build_file :
      load_data (built_header code data_size initial) initial
      ≡ ok (initial ++ replicate (expanded_size data_size initial - length initial) 0)
  unfolding load_data
  load_data-build_file = rw (
    copy_to_front-replicate (expanded_size data_size initial) initial expanded_size-le,
    load_data,
  )

  code_section : take (length code) (drop 20 (build_file code data_size initial)) ≡ code
  unfolding build_file
  code_section = take-append code initial

  data_section :
      take (length initial) (drop (20 + length code) (build_file code data_size initial)) ≡ initial
  unfolding build_file
  data_section = rw (drop-add 20 (length code), drop-append code initial) (take-length initial)

  load_sections-build_file :
      load_sections (built_header code data_size initial) (build_file code data_size initial)
      ≡ ok (built_image code data_size initial)
  unfolding load_sections
  load_sections-build_file =
      rw (data_section, load_data-build_file, code_section, length-build_file) (ground arith)

  load_image-build_file :
      load_image (build_file code data_size initial) ≡ ok (built_image code data_size initial)
  unfolding load_image
  load_image-build_file =
      rw (read_header-build_file, length-build_file) (ground (arith, load_sections-build_file))

-- For a program whose arguments match the opcodes and fit their fields, and for code, data size
-- and initial data below 2^32, the constructor of `Disassembler` accepts the file that `build`
-- writes, and gives back the header, the code, the memory (the initial data, then zeros up to the
-- data size) and the list of instructions with their operands and bit offsets.
pub disassembler-build_file :
    (address : ℕ → ℕ) (program : List AsmInstr) (data_size : ℕ) (initial : List ℕ)
    → AreWellFormed address program
    → length (code_bytes address program) < 2 ^ 32
    → data_size < 2 ^ 32
    → length initial < 2 ^ 32
    → disassembler (build_file (code_bytes address program) data_size initial)
      ≡ ok (
        built_image (code_bytes address program) data_size initial,
        some (lower_program address 0 program),
      )
unfolding disassembler
disassembler-build_file address program data_size initial wf h_code h_size h_initial = rw (
  load_image-build_file (code_bytes address program) data_size initial h_code h_size h_initial,
  disassembler,
  disassemble_code-code_bytes address program wf,
)
