-- ===== src/Core/Paging.antt =====
-- Address translation: `vir2phy` of kernel/header/core/paging.h. `words` is the physical memory
-- that holds page directories and tables, by the address of each 4-byte word.
use omocha_os.Base.{ℕ, ◌+◌, ◌*◌, ◌/◌, ◌%◌, ◌^◌, not, if◌then◌else◌}
use omocha_os.Base.Flags.{has}

abbrev pub pg_present : ℕ
pg_present = 0x0001

abbrev pub pg_ps : ℕ
pg_ps = 0x0080

-- `x & ~0xFFF`
abbrev pub frame : ℕ → ℕ
frame x = x / 4096 * 4096

unfoldable pub vir2phy : (words : ℕ → ℕ) → (pg_dir va : ℕ) → ℕ
vir2phy words pg_dir va =
    let pde = words (pg_dir + 4 * (va / 2 ^ 22)) in
    let pte = words (frame pde + 4 * (va / 2 ^ 12 % 0x400)) in
    if not (has pde pg_present)
    then 0
    else if has pde pg_ps
    then (frame pde + va % 0x400000) % 2 ^ 32
    else (frame pte + va % 0x1000) % 2 ^ 32
