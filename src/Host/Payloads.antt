-- ===== src/Host/Payloads.antt =====
-- What the payload file keeps between `file_write` and `file_read` (main.cpp).
use temp_esas.Prelude.{
  ℕ, ◌+◌, ◌^◌, ◌≤◌, ◌<◌, ◌≡◌, ◌∙◌, refl, ap, sym, arith, List, [], none, some, true, length, take,
  drop,
}
use temp_esas.Host.Files.{
  rb, wb, Stream, Payload, Host, returned, ensure_open, open_file, memory_slice, write_slice,
  overwrite, read_at, write_at, file_read, file_write, close_file, contents,
}
use temp_esas.Host.Slices.{
  length-memory_slice, get_elem?-memory_slice, write_slice-inside, take-drop-overwrite,
  are_mapped-guest,
}

-- A payload that a call of `file_write` can write to: not open yet, or open for writing.
pub data IsWritable (p : Payload) : Type 0 where
  not_open : p.stream ≡ none → p.named ≡ true → IsWritable p
  open_for_writing :
      (position : ℕ) → p.stream ≡ some (record { mode = wb; position = position }) → IsWritable p

ensure_open-wb :
    (p : Payload)
    → IsWritable p
    → (p' : Payload) × (position : ℕ) × (ensure_open wb p ≡ some p')
      × (p'.stream ≡ some (record { mode = wb; position = position }))
      × (p'.named ≡ p.named)
unfolding ensure_open open_file
ensure_open-wb p (not_open shut named) = (
  record p { bytes = some []; stream = some (record { mode = wb; position = 0 }) },
  0,
  ground (arith, shut, named),
  refl,
  refl,
)
ensure_open-wb p (open_for_writing position at) = (p, position, ground (arith, at), at, refl)

module _ (ofs n addr : ℕ) (h : Host) (small : ofs < 2 ^ 63) where
  write_at-bytes :
      (position : ℕ) (bytes : List ℕ)
      → 0 < n
      → addr + n ≤ h.limit
      → (h' : Host) × (write_at ofs n addr (record { mode = wb; position = position }) bytes h
          ≡ returned h')
        × (h'.payload.bytes ≡ some (overwrite ofs (memory_slice n addr h.memory) bytes))
        × (h'.payload.named ≡ h.payload.named)
  unfolding write_at
  write_at-bytes position bytes pos inside = (
    record h {
      payload = record h.payload {
        bytes = some (overwrite ofs (memory_slice n addr h.memory) bytes);
        stream = some (record { mode = wb; position = ofs + n });
      };
    },
    ground (arith, are_mapped-guest n addr h inside),
    refl,
    refl,
  )

  read_at-bytes :
      (position : ℕ) (bytes : List ℕ)
      → addr + length (take n (drop ofs bytes)) ≤ h.limit
      → (h' : Host) × (read_at ofs n addr (record { mode = rb; position = position }) bytes h
          ≡ returned (length (take n (drop ofs bytes)), h'))
        × (h'.memory ≡ write_slice (take n (drop ofs bytes)) addr h.memory)
  unfolding read_at
  read_at-bytes position bytes inside = (
    record h {
      payload = record h.payload {
        stream = some (record { mode = rb; position = ofs + length (take n (drop ofs bytes)) });
      };
      memory = write_slice (take n (drop ofs bytes)) addr h.memory;
    },
    ground (arith, are_mapped-guest (length (take n (drop ofs bytes))) addr h inside),
    refl,
  )

module _ (ofs n addr : ℕ) (h : Host) (p : Payload) (stream : Stream) where
  file_write-opened :
      ensure_open wb h.payload ≡ some p
      → p.stream ≡ some stream
      → file_write ofs n addr h ≡ write_at ofs n addr stream (contents p) (record h { payload = p })
  unfolding file_write
  file_write-opened opened at = ground (arith, opened, at)

  file_read-opened :
      ensure_open rb h.payload ≡ some p
      → p.stream ≡ some stream
      → file_read ofs n addr h ≡ read_at ofs n addr stream (contents p) (record h { payload = p })
  unfolding file_read
  file_read-opened opened at = ground (arith, opened, at)

file_write-bytes :
    (ofs n addr : ℕ) (h : Host)
    → ofs < 2 ^ 63
    → 0 < n
    → addr + n ≤ h.limit
    → IsWritable h.payload
    → (old : List ℕ) × (h' : Host) × (file_write ofs n addr h ≡ returned h')
      × (h'.payload.bytes ≡ some (overwrite ofs (memory_slice n addr h.memory) old))
      × (h'.payload.named ≡ h.payload.named)
file_write-bytes ofs n addr h small pos inside w =
    let (p, position, opened, at, named) = ensure_open-wb h.payload w in
    let (h', e, bytes, name) =
      write_at-bytes ofs n addr (record h { payload = p }) small position (contents p) pos inside in
    (contents p, h', file_write-opened ofs n addr h p _ opened at ∙ e, bytes, name ∙ named)

file_read-bytes :
    (ofs n addr : ℕ) (h : Host) (bytes : List ℕ)
    → ofs < 2 ^ 63
    → h.payload.stream ≡ none
    → h.payload.named ≡ true
    → h.payload.bytes ≡ some bytes
    → addr + length (take n (drop ofs bytes)) ≤ h.limit
    → (h' : Host) × (file_read ofs n addr h ≡ returned (length (take n (drop ofs bytes)), h'))
      × (h'.memory ≡ write_slice (take n (drop ofs bytes)) addr h.memory)
unfolding ensure_open open_file
file_read-bytes ofs n addr h bytes small shut named has inside =
    let p : Payload = record h.payload { stream = some (record { mode = rb; position = 0 }) } in
    let (h', e, m) = read_at-bytes ofs n addr (record h { payload = p }) small 0 bytes inside in
    let opened : ensure_open rb h.payload ≡ some p = ground (arith, shut, named, has) in
    let same : contents p ≡ bytes = ground (arith, has) in
    (
      h',
      file_read-opened ofs n addr h p (record { mode = rb; position = 0 }) opened refl
          ∙ ap
              (λ (bs : List ℕ).
                read_at ofs n addr (record { mode = rb; position = 0 }) bs
                  (record h { payload = p }))
              same
          ∙ e,
      m,
    )

-- Another run, with the file as it was left.
abbrev pub reopened : Payload → Host → Host
reopened p h = record h { payload = close_file p }

-- If at least one byte is written at an offset below 2^63 out of accessible memory, to a named
-- payload that is not open yet or is open for writing, then the write returns, and in another run
-- a read of as many bytes at that offset, into accessible memory, returns their number and leaves
-- the same bytes in memory.
pub file_write-file_read :
    (ofs n from to : ℕ) (h next : Host)
    → 0 < n
    → ofs < 2 ^ 63
    → IsWritable h.payload
    → h.payload.named ≡ true
    → from + n ≤ h.limit
    → to + n ≤ next.limit
    → (h' : Host) × (h'' : Host) × (file_write ofs n from h ≡ returned h')
      × (file_read ofs n to (reopened h'.payload next) ≡ returned (n, h''))
      × ((k : ℕ) → k < n → h''.memory (to + k) ≡ h.memory (from + k))
file_write-file_read ofs n from to h next pos small w named inside room =
    let (old, h', wrote, bytes, name) = file_write-bytes ofs n from h small pos inside w in
    let slice = memory_slice n from h.memory in
    let size : length slice ≡ n = length-memory_slice n from h.memory in
    let back : take n (drop ofs (overwrite ofs slice old)) ≡ slice =
      ap (λ (m : ℕ). take m (drop ofs (overwrite ofs slice old))) (sym size)
      ∙ take-drop-overwrite ofs slice old in
    let count : length (take n (drop ofs (overwrite ofs slice old))) ≡ n =
      ap (λ (l : List ℕ). length l) back ∙ size in
    let (h'', got, memory) =
      file_read-bytes ofs n to (reopened h'.payload next) (overwrite ofs slice old) small refl
        (name ∙ named) bytes (omega (arith, count)) in
    (
      h',
      h'',
      wrote,
      got ∙ ap (λ (c : ℕ). returned (c, h'')) count,
      λ k hk.
          ap (λ (m : ℕ → ℕ). m (to + k))
            (memory ∙ ap (λ (bs : List ℕ). write_slice bs to next.memory) back)
          ∙ write_slice-inside slice to k (h.memory (from + k)) next.memory
              (get_elem?-memory_slice n from k h.memory hk),
    )
