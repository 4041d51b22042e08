-- ===== src/Tests/Payload.antt =====
-- A guest that writes two bytes of its memory to a file, and one that reads them back.
use temp_esas.Prelude.{
  ℕ, ◌^◌, ◌+◌, ◌*◌, ◌≤◌, ◌<◌, ◌≡◌, refl, arith, [], ◌∷◌, none, some, true, false, ◌==◌,
  if◌then◌else◌,
}
use temp_esas.Host.Guard.{accessible_size, region_size, accessible_size-bounds}
use temp_esas.Host.Files.{
  Host, Payload, rb, returned, file_read, file_write, ensure_open, open_file, write_slice, read_at,
  are_mapped, faults,
}
use temp_esas.Host.Payloads.{not_open, reopened, file_write-file_read}

abbrev new_file : Payload
new_file = record { named = true; bytes = none; stream = none }

abbrev writer : Host
writer = record { payload = new_file; memory = λ a. a * 3; limit = 4096; is_host = λ a. false }

abbrev reader : Host
reader = record { payload = new_file; memory = λ a. 0; limit = 4096; is_host = λ a. false }

file_write-file_read_example :
    (h' : Host) × (h'' : Host) × (file_write 1 2 5 writer ≡ returned h')
    × (file_read 1 2 8 (reopened h'.payload reader) ≡ returned (2, h''))
    × ((k : ℕ) → k < 2 → h''.memory (8 + k) ≡ writer.memory (5 + k))
file_write-file_read_example =
    file_write-file_read 1 2 5 8 writer reader (omega arith) (omega arith) (not_open refl refl) refl
      (omega arith) (omega arith)

-- Three bytes, and a read of ten from the second on, into mapped memory behind the guest's pages.
abbrev three_bytes : Host
three_bytes = record {
  payload = record { named = true; bytes = some (7 ∷ 8 ∷ 9 ∷ []); stream = none };
  memory = λ a. 0;
  limit = 4096;
  is_host = λ a. if a == 5000 then true else a == 5001;
}

abbrev read_bytes : Host
read_bytes = record {
  payload = record {
    named = true;
    bytes = some (7 ∷ 8 ∷ 9 ∷ []);
    stream = some (record { mode = rb; position = 3 });
  };
  memory = write_slice (8 ∷ 9 ∷ []) 5000 (λ a. 0);
  limit = 4096;
  is_host = λ a. if a == 5000 then true else a == 5001;
}

three_bytes-faults : file_read 1 10 6000 three_bytes ≡ faults
unfolding file_read ensure_open open_file read_at are_mapped
three_bytes-faults = refl

accessible_size-bounds_example :
    (5000 ≤ accessible_size (2 ^ 12) 5000)
    × (accessible_size (2 ^ 12) 5000 < 5000 + 2 ^ 12)
    × (accessible_size (2 ^ 12) 5000 ≤ region_size)
    × ((pages : ℕ) × (accessible_size (2 ^ 12) 5000 ≡ 2 ^ 12 * pages))
accessible_size-bounds_example = accessible_size-bounds 12 5000 (omega arith) (omega arith)
