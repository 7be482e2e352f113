-- ===== src/Hd/Extended.antt =====
-- The loop over an extended partition in kernel/modules/hd/hd.c.
use omocha_os.Base.{
  ℕ, zero, suc, ◌+◌, ◌-◌, ◌*◌, ◌<◌, ◌≤◌, ◌≡◌, refl, ◌∙◌, ◌⊎◌, inl, inr, arith, ◌≢◌, ◌%◌, ◌^◌,
  ℕ_discrete,
}
use omocha_os.Core.Process.{update}
use omocha_os.Core.Run.{Run, ok}
use omocha_os.Hd.{
  PartInfo, HdInfo, part_table_read, part_of, set_primary, set_logical, extended_parts,
  init_extended,
}

-- Slot `s` is not among the `n` from `slot` on.
abbrev pub IsOutside : (s slot n : ℕ) → Type 0
IsOutside s slot n = (s < slot) ⊎ (slot + n ≤ s)

abbrev pub Extended : Run HdInfo → HdInfo → (slot n : ℕ) → Type 0
Extended run info slot n =
    (last : HdInfo) × (run ≡ ok last)
    × (last.primary ≡ info.primary)
    × ((s : ℕ) → IsOutside s slot n → last.logical s ≡ info.logical s)

pub update-other : {A : Type 0} → (f : ℕ → A) (k s : ℕ) (v : A) → (s ≢ k) → update f k v s ≡ f s
update-other f k s v h = ground (arith, h)

set_logical_lem :
    (info : HdInfo) (i : ℕ) (p : PartInfo)
    → i < 64
    → set_logical info i p ≡ ok (record info { logical = update (info.logical) i p })
unfolding set_logical
set_logical_lem info i p h = ground arith

pub set_primary_lem :
    (info : HdInfo) (i : ℕ) (p : PartInfo)
    → i < 5
    → set_primary info i p ≡ ok (record info { primary = update (info.primary) i p })
unfolding set_primary
set_primary_lem info i p h = ground arith

pub update-same : {A : Type 0} → (f : ℕ → A) (k : ℕ) (v : A) → update f k v k ≡ v
update-same f k v = ground arith

apart : (s slot n : ℕ) → IsOutside s slot (suc n) → s ≢ slot
apart s slot n (inl h) q = omega arith
apart s slot n (inr h) q = omega arith

narrower : (s slot n : ℕ) → IsOutside s slot (suc n) → IsOutside s (slot + 1) n
narrower s slot n (inl h) = inl (omega arith)
narrower s slot n (inr h) = inr (omega arith)

extended_parts_lem :
    (n : ℕ) (disk : ℕ → ℕ → ℕ) (info : HdInfo) (ext_base slot sect : ℕ)
    → slot + n ≤ 64
    → Extended (extended_parts n disk info ext_base slot sect) info slot n
unfolding extended_parts
extended_parts_lem zero disk info ext_base slot sect h = (info, refl, refl, λ s o. refl)
extended_parts_lem (suc n) disk info ext_base slot sect h =
    let first = part_table_read disk sect 0 in
    let second = part_table_read disk sect 1 in
    let p = part_of first ((sect + first.lba_begin) % 2 ^ 32) in
    let next : HdInfo = record info { logical = update (info.logical) slot p } in
    let wrote : set_logical info slot p ≡ ok next = set_logical_lem info slot p (omega arith) in
    let kept : (s : ℕ) → IsOutside s slot (suc n) → next.logical s ≡ info.logical s =
      λ s o. update-other (info.logical) slot s p (apart s slot n o) in
    rw wrote (elim (ℕ_discrete (second.entry_fsid) 0) [
      | yes end ↦ (next, ground (arith, end), refl, kept)
      | no more ↦
          let (last, done, same, outside) =
            extended_parts_lem n disk next ext_base (slot + 1)
              ((ext_base + second.lba_begin) % 2 ^ 32) (omega arith) in
          (
            last,
            ground (arith, more, done),
            same,
            λ s o. outside s (narrower s slot n o) ∙ kept s o,
          )
    ])

pub init_extended_lem :
    (disk : ℕ → ℕ → ℕ) (info : HdInfo) (i : ℕ)
    → i < 4
    → Extended (init_extended disk info (i + 1)) info (i * 16) 16
unfolding init_extended
init_extended_lem disk info i h =
    let base = (info.primary (i + 1)).base in
    let start : (i + 1 - 1) * 16 ≡ i * 16 = omega arith in
    rw start (extended_parts_lem 16 disk info base (i * 16) base (omega arith))
