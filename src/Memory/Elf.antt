-- ===== src/Memory/Elf.antt =====
-- The headers of an ELF file, kernel/header/lib/elf.h, and the checks of
-- kernel/modules/memory/execve.c. Memory is its bytes by address.
use omocha_os.Base.{ℕ, ◌+◌, Bool, true, false, not, ◌==◌, if◌then◌else◌}
use omocha_os.Base.Bytes.{half_at, long_at}

-- `Elf32_Ehdr`, with the fields that the code reads.
pub record Elf32Ehdr : Type 0 where
  pub e_ident : ℕ → ℕ
  pub e_type : ℕ
  pub e_machine : ℕ
  pub e_entry : ℕ
  pub e_phoff : ℕ
  pub e_phentsize : ℕ
  pub e_phnum : ℕ
  pub e_shentsize : ℕ

-- The header at `p`.
unfoldable pub ehdr_at : (bytes : ℕ → ℕ) → (p : ℕ) → Elf32Ehdr
ehdr_at bytes p = record {
  e_ident = λ i. bytes (p + i);
  e_type = half_at bytes (p + 16);
  e_machine = half_at bytes (p + 18);
  e_entry = long_at bytes (p + 24);
  e_phoff = long_at bytes (p + 28);
  e_phentsize = half_at bytes (p + 42);
  e_phnum = half_at bytes (p + 44);
  e_shentsize = half_at bytes (p + 46);
}

-- `Elf32_Phdr`, with the fields that the code reads.
pub record Elf32Phdr : Type 0 where
  pub p_type : ℕ
  pub p_offset : ℕ
  pub p_vaddr : ℕ
  pub p_filesz : ℕ
  pub p_memsz : ℕ
  pub p_flags : ℕ

unfoldable pub phdr_at : (bytes : ℕ → ℕ) → (p : ℕ) → Elf32Phdr
phdr_at bytes p = record {
  p_type = long_at bytes p;
  p_offset = long_at bytes (p + 4);
  p_vaddr = long_at bytes (p + 8);
  p_filesz = long_at bytes (p + 16);
  p_memsz = long_at bytes (p + 20);
  p_flags = long_at bytes (p + 24);
}

-- The bytes 7F 45 4C 46, for a header that is not NULL.
unfoldable pub elf_check_file : (hdr : ℕ) → Elf32Ehdr → Bool
elf_check_file hdr h =
    if hdr == 0
    then false
    else if not (h.e_ident 0 == 0x7F)
    then false
    else if not (h.e_ident 1 == b'E')
    then false
    else if not (h.e_ident 2 == b'L')
    then false
    else if not (h.e_ident 3 == b'F')
    then false
    else true

-- A 32-bit file, its lowest byte first, for the machine 3, of version 1, that can be run.
unfoldable pub elf_check_supported : (hdr : ℕ) → Elf32Ehdr → Bool
unfolding elf_check_file
elf_check_supported hdr h =
    if not (elf_check_file hdr h)
    then false
    else if not (h.e_ident 4 == 1)
    then false
    else if not (h.e_ident 5 == 1)
    then false
    else if not (h.e_machine == 3)
    then false
    else if not (h.e_ident 6 == 1)
    then false
    else if not (h.e_type == 2)
    then false
    else true
