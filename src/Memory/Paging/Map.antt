-- ===== src/Memory/Paging/Map.antt =====
-- What `map_pages` of kernel/modules/memory/paging.c maps, as `vir2phy` sees it.
use omocha_os.Base.{
  ℕ, zero, suc, ◌+◌, ◌-◌, ◌*◌, ◌/◌, ◌%◌, ◌^◌, ◌≤◌, ◌<◌, ◌≡◌, ◌≢◌, refl, ap, ◌∙◌, true, false,
  if◌then◌else◌, arith, subst,
}
use omocha_os.Base.Flags.{has}
use omocha_os.Core.Process.{update}
use omocha_os.Core.Paging.{vir2phy, frame}
use omocha_os.Core.Run.{ok}
use omocha_os.Memory.Paging.{PageMemory, create_page_table, fill_entry, map_loop, map_pages}
use omocha_os.Memory.Paging.Walk.{entry, frame-entry, get_pte_lem, vir2phy-frame}

-- Entries `i` to `i + n - 1` of a table, for the frames from `p` on.
filled : ℕ → (ℕ → ℕ) → (table i p attr : ℕ) → ℕ → ℕ
filled zero words table i p attr = words
filled (suc n) words table i p attr =
    filled n (update words (table + 4 * i) (entry (p * 4096) attr)) table (i + 1) (p + 1) attr

filled-outside :
    (n : ℕ) (words : ℕ → ℕ) (table i p attr a : ℕ)
    → ((j : ℕ) → j < n → a ≢ table + 4 * (i + j))
    → filled n words table i p attr a ≡ words a
unfolding filled
filled-outside zero words table i p attr a h = refl
filled-outside (suc n) words table i p attr a h =
    let here = h 0 (omega arith) in
    let further : (j : ℕ) → j < n → a ≢ table + 4 * (i + 1 + j) =
      λ j l e. h (suc j) (omega arith) (omega (arith, e)) in
    filled-outside n (update words (table + 4 * i) (entry (p * 4096) attr)) table (i + 1) (p + 1)
      attr a further
    ∙ ground (arith, here)

filled-inside :
    (n : ℕ) (words : ℕ → ℕ) (table i p attr j : ℕ)
    → j < n
    → filled n words table i p attr (table + 4 * (i + j)) ≡ entry ((p + j) * 4096) attr
unfolding filled
filled-inside zero words table i p attr j h = absurd (omega arith)
filled-inside (suc n) words table i p attr zero h =
    let one = update words (table + 4 * i) (entry (p * 4096) attr) in
    let apart : (j : ℕ) → j < n → table + 4 * (i + 0) ≢ table + 4 * (i + 1 + j) =
      λ j l e. omega arith in
    filled-outside n one table (i + 1) (p + 1) attr (table + 4 * (i + 0)) apart ∙ ground arith
filled-inside (suc n) words table i p attr (suc j) h =
    let one = update words (table + 4 * i) (entry (p * 4096) attr) in
    let same : i + suc j ≡ i + 1 + j = omega arith in
    let frames : p + 1 + j ≡ p + suc j = omega arith in
    ap (λ (x : ℕ). filled n one table (i + 1) (p + 1) attr (table + 4 * x)) same
    ∙ filled-inside n one table (i + 1) (p + 1) attr j (omega arith)
    ∙ ap (λ (x : ℕ). entry (x * 4096) attr) frames

-- The page directory `d` has the page table `t` for the 4 MB region `k`, in a frame of its own.
pub record HasTable (words : ℕ → ℕ) (d k t : ℕ) : Type 0 where
  pub present : has (words (d * 4096 + 4 * k)) 1 ≡ true
  pub small : has (words (d * 4096 + 4 * k)) 0x80 ≡ false
  pub table : frame (words (d * 4096 + 4 * k)) ≡ t * 4096
  pub nonzero : 0 < t
  pub apart : t ≢ d
  pub region : k < 1024

filled-HasTable :
    (n : ℕ) (words : ℕ → ℕ) (d k t i p attr : ℕ)
    → i + n ≤ 1024
    → HasTable words d k t
    → HasTable (filled n words (t * 4096) i p attr) d k t
filled-HasTable n words d k t i p attr h w =
    let differ : (j : ℕ) → j < n → d * 4096 + 4 * k ≢ t * 4096 + 4 * (i + j) =
      λ j l e. w.apart (omega (arith, w.region, e)) in
    let same = filled-outside n words (t * 4096) i p attr (d * 4096 + 4 * k) differ in
    record {
      present = ap (λ (x : ℕ). has x 1) same ∙ w.present;
      small = ap (λ (x : ℕ). has x 0x80) same ∙ w.small;
      table = ap frame same ∙ w.table;
      nonzero = w.nonzero;
      apart = w.apart;
      region = w.region;
    }

create_page_table_lem :
    (s : PageMemory) (d k t i attr : ℕ)
    → i < 1024
    → HasTable s.words d k t
    → create_page_table s (d * 4096) ((k * 1024 + i) * 4096) attr ≡ ok (s, t * 4096 + 4 * i)
unfolding create_page_table
create_page_table_lem s d k t i attr h w =
    let pte = get_pte_lem s.words (d * 4096) k i (t * 4096) h w.present w.table in
    ground (arith, pte, w.nonzero)

abbrev one_more : PageMemory → (t i p attr : ℕ) → PageMemory
one_more s t i p attr = record s { words = filled 1 s.words (t * 4096) i p attr }

map_round :
    (fuel : ℕ) (s : PageMemory) (d k t i p attr end pde_attr : ℕ)
    → i < 1024
    → HasTable s.words d k t
    → has (s.words (t * 4096 + 4 * i)) 1 ≡ false
    → (k * 1024 + i) * 4096 ≤ end
    → (k * 1024 + i + 1) * 4096 < 2 ^ 32
    → (p + 1) * 4096 < 2 ^ 32
    → map_loop (suc fuel) s (d * 4096) ((k * 1024 + i) * 4096) end (p * 4096) attr pde_attr
      ≡ map_loop fuel
          (one_more s t i p attr)
          (d * 4096)
          ((k * 1024 + (i + 1)) * 4096)
          end
          ((p + 1) * 4096)
          attr
          pde_attr
unfolding map_loop fill_entry filled
map_round fuel s d k t i p attr end pde_attr h w free le va pa =
    let pte = create_page_table_lem s d k t i pde_attr h w in
    let next_va : ((k * 1024 + i) * 4096 + 4096) % 2 ^ 32 ≡ (k * 1024 + (i + 1)) * 4096 =
      omega arith in
    let next_pa : (p * 4096 + 4096) % 2 ^ 32 ≡ (p + 1) * 4096 = omega arith in
    rw next_va (rw next_pa (rw pte (rw free (ground (arith, w.nonzero)))))

map_loop_lem :
    (n fuel : ℕ) (s : PageMemory) (d k t i p attr end pde_attr : ℕ)
    → n < fuel
    → i + n ≤ 1024
    → HasTable s.words d k t
    → ((j : ℕ) → j < n → has (s.words (t * 4096 + 4 * (i + j))) 1 ≡ false)
    → end + 4096 ≡ (k * 1024 + i + n) * 4096
    → (k * 1024 + i + n) * 4096 < 2 ^ 32
    → (p + n) * 4096 < 2 ^ 32
    → map_loop fuel s (d * 4096) ((k * 1024 + i) * 4096) end (p * 4096) attr pde_attr
      ≡ ok (record s { words = filled n s.words (t * 4096) i p attr }, 0)
map_loop_lem zero zero s d k t i p attr end pde_attr f h w free e va pa = absurd (omega arith)
map_loop_lem zero (suc fuel) s d k t i p attr end pde_attr f h w free e va pa =
    unfold map_loop filled in ground arith
map_loop_lem (suc n) zero s d k t i p attr end pde_attr f h w free e va pa = absurd (omega arith)
map_loop_lem (suc n) (suc fuel) s d k t i p attr end pde_attr f h w free e va pa =
    let rest : (j : ℕ)
        → j < n
        → has ((one_more s t i p attr).words (t * 4096 + 4 * (i + 1 + j))) 1 ≡ false =
      λ j l.
        let other : (m : ℕ) → m < 1 → t * 4096 + 4 * (i + 1 + j) ≢ t * 4096 + 4 * (i + m) =
          λ m lm em. omega arith in
        let same : i + suc j ≡ i + 1 + j = omega arith in
        ap (λ (x : ℕ). has x 1)
          (filled-outside 1 s.words (t * 4096) i p attr (t * 4096 + 4 * (i + 1 + j)) other)
        ∙ subst (λ (x : ℕ). has (s.words (t * 4096 + 4 * x)) 1 ≡ false) same
            (free (suc j) (omega arith)) in
    let here : has (s.words (t * 4096 + 4 * i)) 1 ≡ false =
      subst (λ (x : ℕ). has (s.words (t * 4096 + 4 * x)) 1 ≡ false) {x = i + 0} {y = i}
        (omega arith) (free 0 (omega arith)) in
    map_round fuel s d k t i p attr end pde_attr (omega arith) w here (omega arith) (omega arith)
      (omega arith)
    ∙ map_loop_lem n fuel (one_more s t i p attr) d k t (i + 1) (p + 1) attr end pde_attr
        (omega arith) (omega arith) (filled-HasTable 1 s.words d k t i p attr (omega arith) w) rest
        (omega arith) (omega arith) (omega arith)
    ∙ (unfold filled in refl)

map_pages_lem :
    (fuel : ℕ) (s : PageMemory) (d k t i p n attr : ℕ)
    → n < fuel
    → 0 < n
    → i + n ≤ 1024
    → HasTable s.words d k t
    → ((j : ℕ) → j < n → has (s.words (t * 4096 + 4 * (i + j))) 1 ≡ false)
    → (k * 1024 + i + n) * 4096 < 2 ^ 32
    → (p + n) * 4096 < 2 ^ 32
    → map_pages fuel s (d * 4096) ((k * 1024 + i) * 4096) (p * 4096) (n * 4096) attr
      ≡ ok (record s { words = filled n s.words (t * 4096) i p attr }, 0)
unfolding map_pages
map_pages_lem fuel s d k t i p n attr f pos h w free va pa =
    let down : frame ((k * 1024 + i) * 4096) ≡ (k * 1024 + i) * 4096 = omega arith in
    let last : frame ((frame ((k * 1024 + i) * 4096) + n * 4096 + 2 ^ 32 - 1) % 2 ^ 32)
        ≡ (k * 1024 + i + n) * 4096 - 4096 =
      omega arith in
    rw last (
      rw down (
        map_loop_lem n fuel s d k t i p attr ((k * 1024 + i + n) * 4096 - 4096)
          (if has attr 0x200 then 0x201 else 7) f h w free (omega arith) va pa))

-- `map_pages` of `n` pages, 1 or more, at page `i` of the 4 MB region `k`, all of them in this
-- region, where the directory `d` has a page table for the region in a frame of its own and none
-- of the `n` entries is present, with attributes below 4096, addresses that stay below 4 GB and a
-- unit of fuel for each page and one more, returns 0 and leaves the page information alone; then
-- `vir2phy` sends every byte of the range to the same byte of the `n` frames from `p` on, and each
-- word of memory that is none of the `n` entries is as it was.
pub map_pages-vir2phy :
    (fuel : ℕ) (s : PageMemory) (d k t i p n attr x a : ℕ)
    → n < fuel
    → i + n ≤ 1024
    → HasTable s.words d k t
    → ((j : ℕ) → j < n → has (s.words (t * 4096 + 4 * (i + j))) 1 ≡ false)
    → (k * 1024 + i + n) * 4096 < 2 ^ 32
    → (p + n) * 4096 < 2 ^ 32
    → attr < 4096
    → x < n * 4096
    → ((j : ℕ) → j < n → a ≢ t * 4096 + 4 * (i + j))
    → (s' : PageMemory) × (map_pages fuel s
          (d * 4096)
          ((k * 1024 + i) * 4096)
          (p * 4096)
          (n * 4096)
          attr
        ≡ ok (s', 0))
      × (s'.mem ≡ s.mem)
      × (vir2phy s'.words (d * 4096) ((k * 1024 + i) * 4096 + x) ≡ p * 4096 + x)
      × (s'.words a ≡ s.words a)
map_pages-vir2phy fuel s d k t i p n attr x a f h w free va pa ha hx outside =
    let words = filled n s.words (t * 4096) i p attr in
    let table = filled-HasTable n s.words d k t i p attr h w in
    let page : (k * 1024 + i) * 4096 + x ≡ (k * 1024 + (i + x / 4096)) * 4096 + x % 4096 =
      omega arith in
    let byte : (p + x / 4096) * 4096 + x % 4096 ≡ p * 4096 + x = omega arith in
    (
      record s { words = words },
      map_pages_lem fuel s d k t i p n attr f (omega arith) h w free va pa,
      refl,
      ap (vir2phy words (d * 4096)) page
          ∙ vir2phy-frame words (d * 4096) k (i + x / 4096) (t * 4096) (p + x / 4096) (x % 4096)
              (omega arith) (omega arith) (omega arith) table.present table.small table.table
              (ap frame (filled-inside n s.words (t * 4096) i p attr (x / 4096) (omega arith))
                ∙ frame-entry (p + x / 4096) attr ha)
          ∙ byte,
      filled-outside n s.words (t * 4096) i p attr a outside,
    )
