-- ===== src/Acpi.antt =====
-- The search for tables of kernel/driver/acpi.c. Memory is its bytes by address.
pub mod Search
mod Tests
use omocha_os.Base.{
  ℕ, zero, suc, ◌+◌, ◌-◌, ◌*◌, ◌/◌, ◌%◌, ◌^◌, Bool, true, false, not, ◌==◌, ◌&&◌, ltb, List, [],
  ◌∷◌, if◌then◌else◌,
}
use omocha_os.Base.Bytes.{long_at}
use omocha_os.Core.Run.{Run, ok, assert, ◌>>◌, ◌>>=◌}

-- The sum of `n` bytes, as a byte.
unfoldable pub checksum : (n : ℕ) → (ℕ → ℕ) → (p sum : ℕ) → ℕ
checksum zero bytes p sum = sum
checksum (suc n) bytes p sum = checksum n bytes (p + 1) ((sum + bytes p) % 256)

-- `memcmp(p, s, length of s) == 0`
unfoldable pub same_bytes : (ℕ → ℕ) → (p : ℕ) → List ℕ → Bool
same_bytes bytes p [] = true
same_bytes bytes p (c ∷ cs) = (bytes p == c) && same_bytes bytes (p + 1) cs

abbrev pub rsdp_sig : List ℕ
rsdp_sig = b'R' ∷ b'S' ∷ b'D' ∷ b' ' ∷ b'P' ∷ b'T' ∷ b'R' ∷ b' ' ∷ []

-- A root pointer of 20 bytes.
unfoldable pub is_rsdp : (ℕ → ℕ) → (p : ℕ) → Bool
unfolding checksum same_bytes
is_rsdp bytes p = same_bytes bytes p rsdp_sig && (checksum 20 bytes p 0 == 0)

-- Every 16 bytes from `p` on, in `n` rounds; 0 where there is none.
unfoldable pub search_from : (n : ℕ) → (ℕ → ℕ) → (p : ℕ) → ℕ
search_from zero bytes p = 0
search_from (suc n) bytes p =
    let rest = search_from n bytes (p + 16) in if is_rsdp bytes p then p else rest

unfoldable pub search_rsdp : (ℕ → ℕ) → (start max_offset : ℕ) → ℕ
unfolding search_from
search_rsdp bytes start max_offset = search_from ((max_offset + 15) / 16) bytes start

-- A table whose bytes, as many as its length says, have the sum 0.
unfoldable pub is_sdt : (ℕ → ℕ) → (p : ℕ) → Bool
unfolding checksum
is_sdt bytes p = checksum (long_at bytes (p + 4)) bytes p 0 == 0

-- The entries of the root table from `i` on.
unfoldable pub search_entries : (n : ℕ) → (ℕ → ℕ) → (rsdt i : ℕ) → List ℕ → ℕ
unfolding same_bytes
search_entries zero bytes rsdt i sig = 0
search_entries (suc n) bytes rsdt i sig =
    let ph = long_at bytes (rsdt + 36 + 4 * i) in
    let rest = search_entries n bytes rsdt (i + 1) sig in
    if is_sdt bytes ph && same_bytes bytes ph sig then ph else rest

-- `RSDT_TABLECOUNT`
abbrev pub table_count : (ℕ → ℕ) → (rsdt : ℕ) → ℕ
table_count bytes rsdt = (long_at bytes (rsdt + 4) + 2 ^ 32 - 36) % 2 ^ 32 / 4

unfoldable pub search_sdt : (debug : Bool) → (ℕ → ℕ) → (rsdt : ℕ) → List ℕ → Run ℕ
unfolding search_entries same_bytes
search_sdt debug bytes rsdt sig =
    let found = search_entries (table_count bytes rsdt) bytes rsdt 0 sig in
    let valid = same_bytes bytes rsdt (b'R' ∷ b'S' ∷ b'D' ∷ b'T' ∷ []) && is_sdt bytes rsdt in
    if rsdt == 0 then ok 0 else (assert debug valid >> ok found)

-- `init_acpi`: the address of the root table, the version, and the address that `pci` gives for
-- the chipset's registers where its vendor is 0x8086.
unfoldable pub init_acpi : (debug : Bool) → (ℕ → ℕ) → (vendor register : ℕ) → Run (ℕ × ℕ × ℕ)
init_acpi debug bytes vendor register =
    let high = search_rsdp bytes 0xe_0000 0x1_ffff in
    let rsdp = if high == 0 then search_rsdp bytes 0x40E 0x1000 else high in
    assert debug (not (rsdp == 0))
    >> ok (
      long_at bytes (rsdp + 16),
      bytes (rsdp + 15),
      (if vendor == 0x8086 then register / 0x4000 * 0x4000 else 0),
    )
