-- ===== src/Hd/Partitions.antt =====
-- The tables of partitions after kernel/modules/hd/hd.c has read those of the disk.
use omocha_os.Base.{ℕ, zero, suc, ◌+◌, ◌*◌, ◌<◌, ◌≤◌, ◌≡◌, refl, ap, ◌∙◌, arith, ◌≢◌, ℕ_discrete}
use omocha_os.Core.Process.{update}
use omocha_os.Core.Run.{ok}
use omocha_os.Hd.{
  PartInfo, HdInfo, part_table_read, part_of, set_primary, primary_part, primary_parts,
  init_partitions,
}
use omocha_os.Hd.Extended.{IsOutside, update-same, update-other, set_primary_lem, init_extended_lem}

-- Slot `s` belongs to none of the extended partitions from entry `i` on.
abbrev pub IsUnused : (disk : ℕ → ℕ → ℕ) (i s : ℕ) → Type 0
IsUnused disk i s =
    (j : ℕ) → i ≤ j → j < 4 → (part_table_read disk 0 j).entry_fsid ≡ 5 → IsOutside s (j * 16) 16

-- The state after entry `i`, which is not empty.
abbrev Entered : (disk : ℕ → ℕ → ℕ) → HdInfo → (i : ℕ) → HdInfo → Type 0
Entered disk info i last =
    ((j : ℕ) → j ≤ i → last.primary j ≡ info.primary j)
    × (last.primary (i + 1)
        ≡ part_of (part_table_read disk 0 i) ((part_table_read disk 0 i).lba_begin))
    × ((s : ℕ) → IsUnused disk i s → last.logical s ≡ info.logical s)

primary_part_lem :
    (disk : ℕ → ℕ → ℕ) (info : HdInfo) (i count : ℕ)
    → i < 4
    → (part_table_read disk 0 i).entry_fsid ≢ 0
    → (last : HdInfo) × (primary_part disk info i count ≡ ok (last, count + 1))
      × Entered disk info i last
unfolding primary_part
primary_part_lem disk info i count h used =
    let e = part_table_read disk 0 i in
    let p = part_of e (e.lba_begin) in
    let next : HdInfo = record info { primary = update (info.primary) (i + 1) p } in
    let wrote : set_primary info (i + 1) p ≡ ok next =
      set_primary_lem info (i + 1) p (omega arith) in
    let before : (j : ℕ) → j ≤ i → next.primary j ≡ info.primary j =
      λ j l. update-other (info.primary) (i + 1) j p (λ q. absurd (omega arith)) in
    let here : next.primary (i + 1) ≡ p = update-same (info.primary) (i + 1) p in
    elim (ℕ_discrete (e.entry_fsid) 5) [
      | yes extended ↦
          let (last, done, same, outside) = init_extended_lem disk next i h in
          (
            last,
            ground (arith, used, wrote, extended, done),
            (
              λ j l. ap (λ (t : ℕ → PartInfo). t j) same ∙ before j l,
              ap (λ (t : ℕ → PartInfo). t (i + 1)) same ∙ here,
              λ s u. outside s (u i (omega arith) h extended),
            ),
          )
      | no other ↦ (next, ground (arith, used, wrote, other), (before, here, λ s u. refl))
    ]

primary_part-empty :
    (disk : ℕ → ℕ → ℕ) (info : HdInfo) (i count : ℕ)
    → (part_table_read disk 0 i).entry_fsid ≡ 0
    → primary_part disk info i count ≡ ok (info, count)
unfolding primary_part
primary_part-empty disk info i count empty = ground (arith, empty)

-- The run of the loop from entry `i` on.
abbrev Entries : (disk : ℕ → ℕ → ℕ) → HdInfo → (i count : ℕ) → HdInfo → (total : ℕ) → Type 0
Entries disk info i count last total =
    (count ≤ total)
    × ((j : ℕ)
        → i ≤ j
        → j < 4
        → (part_table_read disk 0 j).entry_fsid ≢ 0
        → (count < total)
          × (last.primary (j + 1)
              ≡ part_of (part_table_read disk 0 j) ((part_table_read disk 0 j).lba_begin)))
    × ((j : ℕ) → j ≤ i → last.primary j ≡ info.primary j)
    × ((s : ℕ) → IsUnused disk i s → last.logical s ≡ info.logical s)

primary_parts_lem :
    (n i : ℕ) (disk : ℕ → ℕ → ℕ) (info : HdInfo) (count : ℕ)
    → i + n ≡ 4
    → (last : HdInfo) × (total : ℕ) × (primary_parts n disk info i count ≡ ok (last, total))
      × Entries disk info i count last total
unfolding primary_parts
primary_parts_lem zero i disk info count h = (
  info,
  count,
  refl,
  (omega arith, (λ j l m used. absurd (omega arith)), (λ j l. refl), λ s u. refl),
)
primary_parts_lem (suc n) i disk info count h =
    elim (ℕ_discrete ((part_table_read disk 0 i).entry_fsid) 0) [
      | yes empty ↦
          let fsid_at = λ (j : ℕ). (part_table_read disk 0 j).entry_fsid in
          let skip = primary_part-empty disk info i count empty in
          let (last, total, done, (more, set, before, outside)) =
            primary_parts_lem n (i + 1) disk info count (omega arith) in
          (
            last,
            total,
            rw skip done,
            (
              more,
              (λ j l m used. elim (ℕ_discrete j i) [
                | yes q ↦ absurd (used (ap fsid_at q ∙ empty))
                | no q ↦ set j (omega arith) m used
              ]),
              (λ j l. before j (omega arith)),
              λ s u. outside s (λ j l. u j (omega arith)),
            ),
          )
      | no used ↦
          let (next, did, (before, here, outside)) =
            primary_part_lem disk info i count (omega arith) used in
          let (last, total, done, (more, set, kept, rest)) =
            primary_parts_lem n (i + 1) disk next (count + 1) (omega arith) in
          (
            last,
            total,
            rw did done,
            (
              omega arith,
              (λ j l m filled. elim (ℕ_discrete j i) [
                | yes q ↦ (omega arith, rw q (kept (i + 1) (omega arith) ∙ here))
                | no q ↦ let (found, same) = set j (omega arith) m filled in (omega arith, same)
              ]),
              (λ j l. kept j (omega arith) ∙ before j l),
              λ s u. rest s (λ j l. u j (omega arith)) ∙ outside s u,
            ),
          )
    ]

-- For any disk and any state of the tables before: the tables are read without an access out of
-- bounds, each primary partition that is not empty has the values of its entry, the whole drive
-- keeps its own, and the logical partitions that belong to no extended one keep theirs.
pub init_partitions-tables :
    (disk : ℕ → ℕ → ℕ) (info : HdInfo)
    → (last : HdInfo) × (init_partitions disk info ≡ ok last)
      × ((j : ℕ)
          → j < 4
          → (part_table_read disk 0 j).entry_fsid ≢ 0
          → last.primary (j + 1)
            ≡ part_of (part_table_read disk 0 j) ((part_table_read disk 0 j).lba_begin))
      × (last.primary 0 ≡ info.primary 0)
      × ((s : ℕ) → IsUnused disk 0 s → last.logical s ≡ info.logical s)
unfolding init_partitions
init_partitions-tables disk info =
    let (last, total, done, (more, set, before, outside)) =
      primary_parts_lem 4 0 disk info 0 refl in
    (
      last,
      ground (arith, done),
      (λ j m filled. (set j (omega arith) m filled).1),
      before 0 (omega arith),
      outside,
    )
