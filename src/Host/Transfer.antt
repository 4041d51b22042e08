-- ===== src/Host/Transfer.antt =====
-- `file_read` and `file_write` (main.cpp) on the payload file and the guest's memory.
use temp_esas.Prelude.{ℕ, ◌+◌, ◌≤◌, ◌<◌, ◌≡◌, ◌⊎◌, List, some, get_elem?, ◌^◌, true}
use temp_esas.Host.Files.{Stream, Host, returned, read_at, contents, available, is_mapped, seek}

-- What a call of `fread` may have done.
pub record IsTransfer (ofs n addr count : ℕ) (h h' : Host) : Type 0 where
  pub at_most : count ≤ n
  pub mapped : (k : ℕ) → k < count → is_mapped h (addr + k) ≡ true
  pub copied :
      ofs < 2 ^ 63
      → (k : ℕ) → k < count
      → get_elem? (contents h.payload) (ofs + k) ≡ some (h'.memory (addr + k))
  pub apart : (at : ℕ) → (at < addr) ⊎ (addr + count ≤ at) → h'.memory at ≡ h.memory at
  pub kept : h'.payload.bytes ≡ h.payload.bytes

abbrev read_chunk : ℕ → ℕ → Stream → List ℕ → List ℕ
read_chunk ofs n stream bytes = available stream.mode n (seek ofs stream.position) bytes

module _ (ofs n addr count : ℕ) (stream : Stream) (bytes : List ℕ) (h h' : Host)
    (e : read_at ofs n addr stream bytes h ≡ returned (count, h')) where
  abbrev chunk : List ℕ
  chunk = read_chunk ofs n stream bytes
