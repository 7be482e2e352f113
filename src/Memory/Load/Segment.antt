-- ===== src/Memory/Load/Segment.antt =====
-- A segment that `load_elf_to_proc` of kernel/modules/memory/memory_init.c loads, as the program
-- reads it.
use omocha_os.Base.{
  ℕ, ◌+◌, ◌-◌, ◌*◌, ◌/◌, ◌%◌, ◌^◌, ◌<◌, ◌≤◌, ◌≡◌, refl, ap, ◌∙◌, inl, inr, false, ◌==◌, ◌&&◌, ltb,
  leb, if◌then◌else◌, bit_or, Bool-cases, arith, ℕ_discrete,
}
use omocha_os.Base.Flags.{has}
use omocha_os.Core.Paging.{frame, vir2phy}
use omocha_os.Core.Run.{ok}
use omocha_os.Libc.Memcpy.{memcpy, moved, memcpy-moved}
use omocha_os.Libc.Memset.{memset, memset-filled}
use omocha_os.Memory.Buddy.{MemoryInfo}
use omocha_os.Memory.Elf.{Elf32Phdr}
use omocha_os.Memory.Load.{ProgInfo, Loading, widen, fill_segment, load_segment}
use omocha_os.Memory.Paging.{PageMemory, page_alloc, map_pages}
use omocha_os.Memory.Paging.Map.{HasTable, map_pages-vir2phy}
use omocha_os.Memory.Release.{round_up}

-- The memory with a segment at `pa`, whose first byte has the place `off` of its page.
abbrev image : (ℕ → ℕ) → (elf : ℕ) → Elf32Phdr → (off pa : ℕ) → ℕ → ℕ
image bytes elf ph off pa a =
    let first = pa + off in
    if leb first a && ltb a (first + ph.p_filesz)
    then bytes (elf + ph.p_offset + (a - first))
    else if leb pa a && ltb a (first + ph.p_memsz)
    then 0
    else bytes a

fill_segment_lem :
    (bytes : ℕ → ℕ) (elf : ℕ) (ph : Elf32Phdr) (pa off : ℕ)
    → ph.p_vaddr - frame ph.p_vaddr ≡ off
    → ph.p_filesz ≤ ph.p_memsz
    → (bytes' : ℕ → ℕ) × (fill_segment bytes elf ph pa ≡ ok bytes')
      × ((a : ℕ) → bytes' a ≡ image bytes elf ph off pa a)
unfolding fill_segment
fill_segment_lem bytes elf ph pa off o h =
    let copied = memcpy bytes (pa + off) (elf + ph.p_offset) ph.p_filesz in
    let front = if off == 0 then copied else memset copied pa 0 off in
    let front_lem : (a : ℕ)
        → front a ≡ (
            if leb pa a && ltb a (pa + off)
            then 0
            else moved bytes (pa + off) (elf + ph.p_offset) ph.p_filesz a) =
      λ a. ground (
        arith,
        memset-filled copied pa 0 off a,
        memcpy-moved bytes (pa + off) (elf + ph.p_offset) ph.p_filesz a,
      ) in
    let rest = memset front (pa + off + ph.p_filesz) 0 (ph.p_memsz - ph.p_filesz) in
    rw o (elim (ℕ_discrete ph.p_filesz ph.p_memsz) [
      | yes whole ↦ (front, ground (arith, whole), λ a. front_lem a ∙ ground (arith, whole))
      | no less ↦ (
        rest,
        ground (arith, less),
        λ a.
            memset-filled front (pa + off + ph.p_filesz) 0 (ph.p_memsz - ph.p_filesz) a
            ∙ ground (arith, front_lem a, h),
      )
    ])

-- Any size up to the last page maps that page too.
map_pages-size :
    (fuel : ℕ) (s : PageMemory) (dir v pa size n attr : ℕ)
    → 0 < size
    → n ≡ (size + 4095) / 4096
    → (v + n) * 4096 < 2 ^ 32
    → map_pages fuel s dir (v * 4096) pa size attr
      ≡ map_pages fuel s dir (v * 4096) pa (n * 4096) attr
unfolding map_pages
map_pages-size fuel s dir v pa size n attr pos pages small =
    let same : frame ((frame (v * 4096) + size + 2 ^ 32 - 1) % 2 ^ 32)
        ≡ frame ((frame (v * 4096) + n * 4096 + 2 ^ 32 - 1) % 2 ^ 32) =
      omega arith in
    rw same refl

pte_attr-lt : (flags : ℕ) → bit_or 5 (if has flags 2 then 2 else 0) < 4096
pte_attr-lt flags = elim (Bool-cases (has flags 2)) [
  | inl write ↦ rw write (omega arith)
  | inr read ↦ rw read (omega arith)
]

image_inside :
    (bytes : ℕ → ℕ) (elf : ℕ) (ph : Elf32Phdr) (off pa y : ℕ)
    → y < ph.p_memsz
    → image bytes elf ph off pa (pa + (off + y))
      ≡ (if ltb y ph.p_filesz then bytes (elf + ph.p_offset + y) else 0)
image_inside bytes elf ph off pa y h =
    let byte : elf + ph.p_offset + (pa + (off + y) - (pa + off)) ≡ elf + ph.p_offset + y =
      omega arith in
    rw byte (ground arith)

widen_start : (pgi : ProgInfo) (ph : Elf32Phdr) → (widen pgi ph).image_start ≤ ph.p_vaddr
unfolding widen
widen_start pgi ph = ground arith

load_segment_lem :
    (fuel : ℕ) (s : Loading) (elf dir n pa v r : ℕ) (ph : Elf32Phdr) (mem' : MemoryInfo)
    (bytes' : ℕ → ℕ) (pages' : PageMemory)
    → round_up ph.p_memsz / 4096 ≡ n
    → page_alloc s.pages.mem n 0xA0 ≡ ok (mem', pa)
    → fill_segment s.bytes elf ph pa ≡ ok bytes'
    → frame ph.p_vaddr ≡ v
    → map_pages fuel
        (record { mem = mem'; words = s.pages.words })
        dir
        v
        pa
        ph.p_memsz
        (bit_or 5 (if has ph.p_flags 2 then 2 else 0))
      ≡ ok (pages', r)
    → load_segment fuel s elf dir ph
      ≡ ok (record { pages = pages'; bytes = bytes'; pgi = widen s.pgi ph })
unfolding load_segment
load_segment_lem fuel s elf dir n pa v r ph mem' bytes' pages' size got copied down done =
    rw size (rw got (rw copied (rw down (rw done refl))))

-- A segment with a size in memory, no less than its size in the file, at place `off` of page `i` of
-- the 4 MB region `k`, that the allocator gives the frames from `p` on for its `n` pages; the
-- directory `d` has a page table for the region, where none of the `n` entries is present, the
-- addresses stay below 4 GB and there is a unit of fuel for each page and one more. The segment is
-- loaded; the program then reads at each byte of the segment that lies in the `n` pages the byte of
-- the file, or 0 behind the bytes that the file has; and the image starts at or below the segment.
pub load_segment-read :
    (fuel : ℕ) (s : Loading) (elf d k t i p n off y : ℕ) (ph : Elf32Phdr) (mem' : MemoryInfo)
    → ph.p_vaddr ≡ (k * 1024 + i) * 4096 + off
    → off < 4096
    → 0 < ph.p_memsz
    → ph.p_filesz ≤ ph.p_memsz
    → n ≡ (ph.p_memsz + 4095) / 4096
    → page_alloc s.pages.mem n 0xA0 ≡ ok (mem', p * 4096)
    → n < fuel
    → i + n ≤ 1024
    → HasTable s.pages.words d k t
    → ((j : ℕ) → j < n → has (s.pages.words (t * 4096 + 4 * (i + j))) 1 ≡ false)
    → (k * 1024 + i + n) * 4096 < 2 ^ 32
    → (p + n) * 4096 < 2 ^ 32
    → y < ph.p_memsz
    → off + y < n * 4096
    → (s' : Loading) × (load_segment fuel s elf (d * 4096) ph ≡ ok s')
      × (s'.bytes (vir2phy s'.pages.words (d * 4096) (ph.p_vaddr + y))
          ≡ (if ltb y ph.p_filesz then s.bytes (elf + ph.p_offset + y) else 0))
      × (s'.pages.mem ≡ mem')
      × (s'.pgi.image_start ≤ ph.p_vaddr)
load_segment-read fuel s elf d k t i p n off y ph mem' va small pos file pages got f h w free top pa
      hy inside =
    let size : round_up ph.p_memsz / 4096 ≡ n = omega arith in
    let down : frame ph.p_vaddr ≡ (k * 1024 + i) * 4096 = omega arith in
    let place : ph.p_vaddr - frame ph.p_vaddr ≡ off = omega arith in
    let attr = bit_or 5 (if has ph.p_flags 2 then 2 else 0) in
    let given : PageMemory = record { mem = mem'; words = s.pages.words } in
    let (bytes', copied, seen) = fill_segment_lem s.bytes elf ph (p * 4096) off place file in
    let (s', mapped, same, sent, rest) =
      map_pages-vir2phy fuel given d k t i p n attr (off + y) (t * 4096 + 1) f h w free top pa
        (pte_attr-lt ph.p_flags) inside (λ j l e. omega (arith, e)) in
    let done =
      map_pages-size fuel given (d * 4096) (k * 1024 + i) (p * 4096) ph.p_memsz n attr pos pages top
      ∙ mapped in
    let at : ph.p_vaddr + y ≡ (k * 1024 + i) * 4096 + (off + y) = omega arith in
    (
      record { pages = s'; bytes = bytes'; pgi = widen s.pgi ph },
      load_segment_lem fuel s elf (d * 4096) n (p * 4096) ((k * 1024 + i) * 4096) 0 ph mem' bytes'
          s' size got copied down done,
      ap bytes' (ap (vir2phy s'.words (d * 4096)) at ∙ sent)
          ∙ seen (p * 4096 + (off + y))
          ∙ image_inside s.bytes elf ph off (p * 4096) y hy,
      same,
      widen_start s.pgi ph,
    )
