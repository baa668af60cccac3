-- ===== src/Loader/Tests.antt =====
-- kernel/src/elf_loader.c: headers.
use plusplus_os.Base.{ℕ, ◌≡◌, refl, true, false, update}
use plusplus_os.Loader.{header_is_valid, paging_flags, segment_pages}

-- The magic number, 64 bits, and the encoding `order`.
abbrev header : ℕ → ℕ → ℕ
header order =
    update (update (update (update (update (update (λ a. 0) 0 0x7f) 1 b'E') 2 b'L') 3 b'F') 4 2) 5
      order

-- Little-endian files, and those of an encoding that is not known, are accepted.
little_endian_test : header_is_valid (header 1) 0 ≡ true
unfolding header_is_valid update
little_endian_test = refl

unknown_test : header_is_valid (header 7) 0 ≡ true
unfolding header_is_valid update
unknown_test = refl

big_endian_test : header_is_valid (header 2) 0 ≡ false
unfolding header_is_valid update
big_endian_test = refl

-- A segment that may be run and read.
flags_test : paging_flags 5 ≡ 2
unfolding paging_flags
flags_test = refl

pages_test :
    segment_pages (record {
      p_type = 1;
      p_flags = 5;
      p_offset = 0;
      p_vaddr = 0x1000;
      p_filesz = 0;
      p_memsz = 4097;
    })
    ≡ 2
unfolding segment_pages
pages_test = refl
