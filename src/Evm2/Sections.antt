-- ===== src/Evm2/Sections.antt =====
-- What the header's checks guarantee, and what they leave out.
use temp_esas.Prelude.{
  ℕ, ◌+◌, ◌≤◌, ◌<◌, ◌≡◌, ◌↔◌, arith, List, length, replicate, take, drop, length-append,
  length-drop, length-replicate, length-take, true,
}
use temp_esas.Evm2.Image.{
  Image, ok, overrun, magic_number, header_size, same_bytes, read_header, copy_to_front, load_data,
  load_sections, load_image,
}

-- The checks pass, but the initial data is larger than the memory that it is copied to.
pub record IsOversized (file : List ℕ) : Type 0 where
  pub whole_header : header_size ≤ length file
  pub marked : same_bytes (read_header file).magic magic_number ≡ true
  pub sized :
      length file
      ≡ header_size + (read_header file).code_size + (read_header file).initial_data_size
  pub oversized : (read_header file).data_size < (read_header file).initial_data_size

module _ (file : List ℕ) where
  -- The slice of initial data, when the file has the size that its header says.
  initial_data : List ℕ
  initial_data =
      take (read_header file).initial_data_size
        (drop (header_size + (read_header file).code_size) file)

  length-initial_data :
      length file
        ≡ header_size + (read_header file).code_size + (read_header file).initial_data_size
      → length initial_data ≡ (read_header file).initial_data_size
  unfolding initial_data
  length-initial_data e =
      length-take (read_header file).initial_data_size _
        (omega (arith, length-drop {0} {A = ℕ} (header_size + (read_header file).code_size) file))

  -- The constructor copies past the end of the memory that it has resized exactly for the files
  -- that pass all its checks and whose initial data is larger than their data size.
  pub load_image-overrun_iff : (load_image file ≡ overrun) ↔ IsOversized file
  unfolding load_image load_sections load_data copy_to_front initial_data
  load_image-overrun_iff = (
    λ e. record {
      whole_header = ground arith;
      marked = ground arith;
      sized = ground arith;
      oversized =
          ground (
            arith,
            length-initial_data,
            length-replicate {0} {A = ℕ} (read_header file).data_size 0,
          );
    },
    λ o. ground (
      arith,
      o.whole_header,
      o.marked,
      o.sized,
      o.oversized,
      length-initial_data o.sized,
      length-replicate {0} {A = ℕ} (read_header file).data_size 0,
    ),
  )

  -- If a file loads, the code has the code size of the header and the memory its data size, the
  -- initial data is no larger than the memory, and the file is the header, the code and the
  -- initial data, no more.
  pub load_image-sizes :
      (image : Image)
      → load_image file ≡ ok image
      → (length image.code ≡ image.header.code_size)
        × (length image.memory ≡ image.header.data_size)
        × (image.header.initial_data_size ≤ image.header.data_size)
        × (length file ≡ header_size + image.header.code_size + image.header.initial_data_size)
  unfolding load_image load_sections load_data copy_to_front initial_data
  load_image-sizes image e = (
    ground (
      arith,
      length-take {0} {A = ℕ} (read_header file).code_size (drop header_size file),
      length-drop {0} {A = ℕ} header_size file,
    ),
    ground (
      arith,
      length-append initial_data
          (drop (length initial_data) (replicate (read_header file).data_size 0)),
      length-drop {0} {A = ℕ} (length initial_data) (replicate (read_header file).data_size 0),
      length-replicate {0} {A = ℕ} (read_header file).data_size 0,
    ),
    ground
        (arith, length-initial_data, length-replicate {0} {A = ℕ} (read_header file).data_size 0),
    ground arith,
  )
