-- ===== src/Acpi/Tests.antt =====
-- A root table at 0x100 that lists one table, at 0x200.
use omocha_os.Base.{
  ℕ, ◌+◌, ◌-◌, ◌*◌, ◌≡◌, refl, true, ◌&&◌, ◌==◌, ltb, leb, List, [], ◌∷◌, ◌++◌, replicate, get_or,
  if◌then◌else◌, arith,
}
use omocha_os.Base.Bytes.{long_at}
use omocha_os.Core.Run.{ok}
use omocha_os.Acpi.{checksum, is_sdt, same_bytes, search_sdt, search_entries}
use omocha_os.Acpi.Search.{IsFirst, search_sdt-IsFirst}

abbrev root : List ℕ
root = b'R' ∷ b'S' ∷ b'D' ∷ b'T' ∷ 40 ∷ 0 ∷ 0 ∷ 0 ∷ replicate 28 0 ++ (0 ∷ 2 ∷ 0 ∷ 0 ∷ [])

abbrev table : List ℕ
table = b'A' ∷ b'P' ∷ b'I' ∷ b'C' ∷ 36 ∷ 0 ∷ 0 ∷ 0 ∷ replicate 28 0

-- Byte 9 of a table is the one that makes its sum 0.
abbrev fixed : List ℕ → (sum p i : ℕ) → ℕ
fixed t sum p i =
    if leb p i && ltb i (p + 40) then (if i - p == 9 then sum else get_or t (i - p) 0) else 0

abbrev memory : ℕ → ℕ
memory a = fixed root 153 0x100 a + fixed table 191 0x200 a

valid_root : is_sdt memory 0x100 ≡ true
unfolding is_sdt checksum
valid_root = refl

valid_table : is_sdt memory 0x200 ≡ true
unfolding is_sdt checksum
valid_table = refl

found_table : search_sdt true memory 0x100 (b'A' ∷ b'P' ∷ b'I' ∷ b'C' ∷ []) ≡ ok 0x200
unfolding search_sdt search_entries same_bytes is_sdt checksum
found_table = refl

root_sig : same_bytes memory 0x100 (b'R' ∷ b'S' ∷ b'D' ∷ b'T' ∷ []) ≡ true
unfolding same_bytes
root_sig = refl

search_sdt-IsFirst_example :
    (found : ℕ) × (search_sdt true memory 0x100 (b'A' ∷ b'P' ∷ b'I' ∷ b'C' ∷ []) ≡ ok found)
    × IsFirst
        (λ ph. is_sdt memory ph && same_bytes memory ph (b'A' ∷ b'P' ∷ b'I' ∷ b'C' ∷ []))
        (λ j. long_at memory (0x124 + 4 * j))
        1
        found
search_sdt-IsFirst_example =
    search_sdt-IsFirst true memory 0x100 (b'A' ∷ b'P' ∷ b'I' ∷ b'C' ∷ []) (λ e. omega (arith, e))
      root_sig valid_root
