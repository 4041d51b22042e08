-- ===== src/Host/Files.antt =====
-- `file_read` and `file_write` of `RunTest` (main.cpp): the payload file, opened by the first call,
-- and the guest's memory. The two run under `mutexIo`, so each is one step.
use temp_esas.Prelude.{
  ℕ, zero, suc, ◌+◌, ◌^◌, List, [], ◌∷◌, ◌++◌, Option, none, some, Bool, true, false, ◌==◌, ltb,
  if◌then◌else◌, length, take, drop,
}

-- The mode of `fopen`: "rb" in `file_read`, "wb" in `file_write`.
pub data Mode : Type 0 where
  rb wb : Mode

-- The variable `f`: no file yet, or a mode and a position.
pub record Stream : Type 0 where
  pub mode : Mode
  pub position : ℕ

-- The file under `payload`, if its name is not empty, as far as the disk has it; the open stream.
pub record Payload : Type 0 where
  pub named : Bool
  pub bytes : Option (List ℕ)
  pub stream : Option Stream

-- `fopen`: "rb" wants the file to exist, "wb" makes it empty.
unfoldable pub open_file : Mode → Payload → Option Payload
open_file rb p = elim p.bytes [
  | none ↦ none
  | some bytes ↦ some (record p { stream = some (record { mode = rb; position = 0 }) })
]
open_file wb p =
    some (record p { bytes = some []; stream = some (record { mode = wb; position = 0 }) })

-- `if (!f) { assert(!payload.empty()); f = fopen(...); assert(f); }`
unfoldable pub ensure_open : Mode → Payload → Option Payload
ensure_open mode p = elim p.stream [
  | some stream ↦ some p
  | none ↦ elim p.named [ true ↦ open_file mode p | false ↦ none ]
]

-- `fseek(f, (long)ofs, SEEK_SET)`: a negative offset fails and leaves the position.
abbrev pub seek : ℕ → ℕ → ℕ
seek ofs position = if ltb ofs (2 ^ 63) then ofs else position

-- The bytes from `position` on, `n` at most; a stream for writing gives none.
abbrev pub available : Mode → ℕ → ℕ → List ℕ → List ℕ
available rb n position bytes = take n (drop position bytes)
available wb n position bytes = []

-- `n` bytes of memory from `a` up.
unfoldable pub memory_slice : ℕ → ℕ → (ℕ → ℕ) → List ℕ
memory_slice zero a memory = []
memory_slice (suc n) a memory = memory a ∷ memory_slice n (a + 1) memory

unfoldable pub write_slice : List ℕ → ℕ → (ℕ → ℕ) → ℕ → ℕ
write_slice [] a memory at = memory at
write_slice (b ∷ bytes) a memory at = if at == a then b else write_slice bytes (a + 1) memory at

-- A file after `chunk` is written at `position`: a gap behind its end is filled with zeros.
unfoldable pub overwrite : ℕ → List ℕ → List ℕ → List ℕ
overwrite zero chunk bytes = chunk ++ drop (length chunk) bytes
overwrite (suc position) chunk [] = 0 ∷ overwrite position chunk []
overwrite (suc position) chunk (b ∷ bytes) = b ∷ overwrite position chunk bytes

-- The file, and the memory of the process by its distance from `sharedMemory`: below `limit` are the
-- pages of the guest, and `is_host` says of the bytes behind them which ones are mapped as well.
pub record Host : Type 0 where
  pub payload : Payload
  pub memory : ℕ → ℕ
  pub limit : ℕ
  pub is_host : ℕ → Bool

-- A call returns, stops at an `assert`, or touches a byte that is not mapped.
pub data Result (A : Type 0) : Type 0 where
  returned : A → Result A
  failed faults : Result A

-- A byte that a transfer can touch; nothing is behind the last 64-bit address.
abbrev pub is_mapped : Host → ℕ → Bool
is_mapped h a = if ltb a h.limit then true else if ltb a (2 ^ 64) then h.is_host a else false

-- `n` bytes from `a` up; nothing else limits a transfer.
unfoldable pub are_mapped : ℕ → ℕ → Host → Bool
are_mapped zero a h = true
are_mapped (suc n) a h = let rest = are_mapped n (a + 1) h in if is_mapped h a then rest else false

-- `fread(mem + addr, 1, toRead, f)` behind the `fseek`.
unfoldable pub read_at : ℕ → ℕ → ℕ → Stream → List ℕ → Host → Result (ℕ × Host)
read_at ofs to_read addr stream bytes h =
    let start = seek ofs stream.position in
    let chunk = available stream.mode to_read start bytes in
    if are_mapped (length chunk) addr h
    then returned (
      length chunk,
      record h {
        payload = record h.payload {
          stream = some (record stream { position = start + length chunk });
        };
        memory = write_slice chunk addr h.memory;
      },
    )
    else faults

-- What the stream can see of the file; an open stream has a file.
abbrev pub contents : Payload → List ℕ
contents p = elim p.bytes [ some bytes ↦ bytes | none ↦ [] ]

unfoldable pub file_read : ℕ → ℕ → ℕ → Host → Result (ℕ × Host)
file_read ofs to_read addr h = elim (ensure_open rb h.payload) [
  | none ↦ failed
  | some p ↦ elim p.stream [
    | none ↦ failed
    | some stream ↦ read_at ofs to_read addr stream (contents p) (record h { payload = p })
  ]
]

-- `fwrite(mem + addr, toWrite, 1, f)` behind the `fseek`; a stream for reading takes nothing.
unfoldable pub write_at : ℕ → ℕ → ℕ → Stream → List ℕ → Host → Result Host
write_at ofs to_write addr stream bytes h =
    let start = seek ofs stream.position in
    elim stream.mode [
      | rb ↦ returned (record h {
        payload = record h.payload { stream = some (record stream { position = start }) };
      })
      | wb ↦
          if to_write == 0
          then returned (record h {
            payload = record h.payload { stream = some (record stream { position = start }) };
          })
          else if are_mapped to_write addr h
          then returned (record h {
            payload = record h.payload {
              bytes = some (overwrite start (memory_slice to_write addr h.memory) bytes);
              stream = some (record stream { position = start + to_write });
            };
          })
          else faults
    ]

unfoldable pub file_write : ℕ → ℕ → ℕ → Host → Result Host
file_write ofs to_write addr h = elim (ensure_open wb h.payload) [
  | none ↦ failed
  | some p ↦ elim p.stream [
    | none ↦ failed
    | some stream ↦ write_at ofs to_write addr stream (contents p) (record h { payload = p })
  ]
]

-- `fclose` at the end of `RunTest`, and the start of another run, which opens the file anew.
abbrev pub close_file : Payload → Payload
close_file p = record p { stream = none }
