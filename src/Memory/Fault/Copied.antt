-- ===== src/Memory/Fault/Copied.antt =====
-- Copy on write of kernel/modules/memory/pagefault.c: what the caller sees after the fault.
use omocha_os.Base.{
  ℕ, ◌+◌, ◌-◌, ◌*◌, ◌/◌, ◌^◌, ◌<◌, ◌≡◌, ◌≢◌, refl, sym, ap, ◌∙◌, true, false, bit_or, arith,
}
use omocha_os.Base.Flags.{has, raise, lower, has-raise}
use omocha_os.Core.Process.{update, error}
use omocha_os.Core.Paging.{frame, vir2phy}
use omocha_os.Core.Run.{ok}
use omocha_os.Memory.Buddy.{MemoryInfo}
use omocha_os.Memory.Paging.{PageMemory, page_alloc, get_pte, decrease_page_ref, copy_page}
use omocha_os.Memory.Paging.Walk.{frame-raise, get_pte_lem, vir2phy-frame}
use omocha_os.Memory.Paging.Map.{HasTable}
use omocha_os.Memory.Fault.{shared, copy_shared_page, own_page_table, set_pte, do_page_fault}

copy_page-other :
    (words : ℕ → ℕ) (q p f o : ℕ)
    → o < 4096
    → f ≢ q
    → copy_page words (q * 4096) (p * 4096) (f * 4096 + o) ≡ words (f * 4096 + o)
unfolding copy_page
copy_page-other words q p f o h differ = ground arith

copy_page-same :
    (words : ℕ → ℕ) (q p o : ℕ)
    → o < 4096
    → copy_page words (q * 4096) (p * 4096) (q * 4096 + o) ≡ words (p * 4096 + o)
unfolding copy_page
copy_page-same words q p o h =
    let offset : p * 4096 + (q * 4096 + o - q * 4096) ≡ p * 4096 + o = omega arith in
    rw offset (ground arith)

get_pte-frame :
    (words : ℕ → ℕ) (page_dir v y : ℕ)
    → y < 4096
    → get_pte words page_dir (v * 4096 + y) ≡ get_pte words page_dir (v * 4096)
unfolding get_pte
get_pte-frame words page_dir v y h =
    let dir : (v * 4096 + y) / 2 ^ 22 ≡ v * 4096 / 2 ^ 22 = omega arith in
    let idx : (v * 4096 + y) / 2 ^ 12 ≡ v * 4096 / 2 ^ 12 = omega arith in rw dir (rw idx refl)

-- Words that agree on the entry of the directory.
HasTable-cong :
    (words words' : ℕ → ℕ) (d k t : ℕ)
    → words' (d * 4096 + 4 * k) ≡ words (d * 4096 + 4 * k)
    → HasTable words d k t
    → HasTable words' d k t
HasTable-cong words words' d k t same w = record {
  present = ap (λ (x : ℕ). has x 1) same ∙ w.present;
  small = ap (λ (x : ℕ). has x 0x80) same ∙ w.small;
  table = ap frame same ∙ w.table;
  nonzero = w.nonzero;
  apart = w.apart;
  region = w.region;
}

-- The caller's entry for the new page `q`.
abbrev own_entry : ℕ → ℕ
own_entry q = raise (raise (raise (q * 4096) 1) 4) 2

abbrev copied : PageMemory → MemoryInfo → (t i p q : ℕ) → PageMemory
copied s mem t i p q = record {
  mem = decrease_page_ref mem (p * 4096);
  words = update (copy_page s.words (q * 4096) (p * 4096)) (t * 4096 + 4 * i) (own_entry q);
}

frame-own_entry : (q : ℕ) → frame (own_entry q) ≡ q * 4096
frame-own_entry q =
    frame-raise (raise (raise (q * 4096) 1) 4) 2 (omega arith)
    ∙ frame-raise (raise (q * 4096) 1) 4 (omega arith)
    ∙ frame-raise (q * 4096) 1 (omega arith)
    ∙ omega arith

own_page_table_lem :
    (s : PageMemory) (d k t v : ℕ)
    → v / 2 ^ 22 ≡ k
    → HasTable s.words d k t
    → shared s.mem (t * 4096) ≡ false
    → own_page_table s (d * 4096) v ≡ ok s
unfolding own_page_table
own_page_table_lem s d k t v region w single = rw region (rw w.table (rw single refl))

do_page_fault_lem :
    (s : PageMemory) (mem : MemoryInfo) (d k t i p q y status : ℕ)
    → i < 1024
    → y < 4096
    → p < 2 ^ 20
    → HasTable s.words d k t
    → frame (s.words (t * 4096 + 4 * i)) ≡ p * 4096
    → shared s.mem (p * 4096) ≡ true
    → page_alloc s.mem 1 (bit_or 0x20 0x80) ≡ ok (mem, q * 4096)
    → q ≢ d
    → q ≢ t
    → shared (decrease_page_ref mem (p * 4096)) (t * 4096) ≡ false
    → do_page_fault s (d * 4096) ((k * 1024 + i) * 4096 + y) status
      ≡ ok (copied s mem t i p q, lower status error)
unfolding do_page_fault copy_shared_page set_pte
do_page_fault_lem s mem d k t i p q y status hi hy hp w old many new qd qt single =
    let at =
      vir2phy-frame s.words (d * 4096) k i (t * 4096) p y hi hy hp w.present w.small w.table old in
    let page : frame (vir2phy s.words (d * 4096) ((k * 1024 + i) * 4096 + y)) ≡ p * 4096 =
      ap frame at ∙ omega arith in
    let region : ((k * 1024 + i) * 4096 + y) / 2 ^ 22 ≡ k = omega arith in
    let words = copy_page s.words (q * 4096) (p * 4096) in
    let same = copy_page-other s.words q p d (4 * k) (omega (arith, w.region)) (λ e. qd (sym e)) in
    let table = HasTable-cong s.words words d k t same w in
    let s1 : PageMemory = record { mem = decrease_page_ref mem (p * 4096); words = words } in
    let own = own_page_table_lem s1 d k t ((k * 1024 + i) * 4096 + y) region table single in
    let pte : get_pte words (d * 4096) ((k * 1024 + i) * 4096 + y) ≡ t * 4096 + 4 * i =
      get_pte-frame words (d * 4096) (k * 1024 + i) y hy
      ∙ get_pte_lem words (d * 4096) k i (t * 4096) hi table.present table.table in
    rw page (rw many (rw new (rw own (rw pte (ground arith)))))

-- A write fault at byte `y` of page `i` of the 4 MB region `k`, where the page table in frame `t` is
-- a frame other than that of the directory `d`, the entry names the frame `p`, which is not the
-- table, with a reference count above 1, the allocator gives frame `q`, none of these three, and
-- the page table has no other user: the fault handler clears the caller's error bit; then the
-- address lies in frame `q`, each byte offset `o` of which holds what frame `p` held, frame `p`
-- holds the same as before, and the entry is present and writable.
pub do_page_fault-copy_page :
    (s : PageMemory) (mem : MemoryInfo) (d k t i p q y o status : ℕ)
    → i < 1024
    → y < 4096
    → p < 2 ^ 20
    → q < 2 ^ 20
    → o < 4096
    → HasTable s.words d k t
    → frame (s.words (t * 4096 + 4 * i)) ≡ p * 4096
    → p ≢ t
    → shared s.mem (p * 4096) ≡ true
    → page_alloc s.mem 1 (bit_or 0x20 0x80) ≡ ok (mem, q * 4096)
    → q ≢ d
    → q ≢ t
    → q ≢ p
    → shared (decrease_page_ref mem (p * 4096)) (t * 4096) ≡ false
    → (s' : PageMemory) × (do_page_fault s (d * 4096) ((k * 1024 + i) * 4096 + y) status
        ≡ ok (s', lower status error))
      × (vir2phy s'.words (d * 4096) ((k * 1024 + i) * 4096 + y) ≡ q * 4096 + y)
      × (s'.words (q * 4096 + o) ≡ s.words (p * 4096 + o))
      × (s'.words (p * 4096 + o) ≡ s.words (p * 4096 + o))
      × (has (s'.words (t * 4096 + 4 * i)) 1 ≡ true)
      × (has (s'.words (t * 4096 + 4 * i)) 2 ≡ true)
do_page_fault-copy_page s mem d k t i p q y o status hi hy hp hq ho w old pt many new qd qt qp
      single =
    let s' = copied s mem t i p q in
    let words = copy_page s.words (q * 4096) (p * 4096) in
    let apart : d * 4096 + 4 * k ≢ t * 4096 + 4 * i = λ e. w.apart (omega (arith, w.region, e)) in
    let dir : s'.words (d * 4096 + 4 * k) ≡ s.words (d * 4096 + 4 * k) =
      ground (arith, apart)
      ∙ copy_page-other s.words q p d (4 * k) (omega (arith, w.region)) (λ e. qd (sym e)) in
    let table = HasTable-cong s.words s'.words d k t dir w in
    let pte : s'.words (t * 4096 + 4 * i) ≡ own_entry q = ground arith in
    let keep : (f : ℕ) → f ≢ t → s'.words (f * 4096 + o) ≡ words (f * 4096 + o) = λ f n.
      let other : f * 4096 + o ≢ t * 4096 + 4 * i = λ e. n (omega (arith, e)) in
      ground (arith, other) in
    (
      s',
      do_page_fault_lem s mem d k t i p q y status hi hy hp w old many new qd qt single,
      vir2phy-frame s'.words (d * 4096) k i (t * 4096) q y hi hy hq table.present table.small
          table.table (ap frame pte ∙ frame-own_entry q),
      keep q qt ∙ copy_page-same s.words q p o ho,
      keep p pt ∙ copy_page-other s.words q p p o ho (λ e. qp (sym e)),
      ap (λ (x : ℕ). has x 1) pte
          ∙ has-raise (raise (raise (q * 4096) 1) 4) 1 0
          ∙ ground (arith, has-raise (raise (q * 4096) 1) 2 0, has-raise (q * 4096) 0 0),
      ap (λ (x : ℕ). has x 2) pte ∙ has-raise (raise (raise (q * 4096) 1) 4) 1 1,
    )
