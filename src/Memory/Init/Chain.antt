-- ===== src/Memory/Init/Chain.antt =====
-- The chains of free blocks that kernel/modules/memory/memory_init.c links.
use omocha_os.Base.{
  ℕ, zero, suc, ◌+◌, ◌*◌, ◌<◌, ◌≡◌, ◌≢◌, refl, ap, ◌∙◌, List, [], ◌∷◌, sym, subst, arith,
  ℕ_discrete,
}
use omocha_os.Core.Process.{update}
use omocha_os.Memory.Buddy.{Link}
use omocha_os.Memory.Init.{max_block_size}

-- The blocks from the highest one down, `n` of them from block `s` on.
abbrev pub blocks : (s n : ℕ) → List ℕ
blocks s zero = []
blocks s (suc n) = (s + n) * max_block_size ∷ blocks s n

-- A list of free blocks, linked both ways.
abbrev pub IsChain : (ℕ → Link) → (before head : ℕ) → List ℕ → Type 0
IsChain links before head [] = head ≡ 0
IsChain links before head (x ∷ xs) =
    (head ≡ x) × ((links x).prev ≡ before) × IsChain links x (links x).next xs

pub IsChain-frame :
    (s n : ℕ) (links links' : ℕ → Link) (before head : ℕ)
    → ((j : ℕ) → j < n → links' ((s + j) * max_block_size) ≡ links ((s + j) * max_block_size))
    → IsChain links before head (blocks s n)
    → IsChain links' before head (blocks s n)
IsChain-frame s zero links links' before head same w = w
IsChain-frame s (suc n) links links' before head same w =
    let here = same n (omega arith) in
    (
      w.0,
      ap (λ (l : Link). l.prev) here ∙ w.1,
      rw here (
          IsChain-frame s n links links' ((s + n) * max_block_size)
            (links ((s + n) * max_block_size)).next (λ j l. same j (omega arith)) w.2),
    )

-- A value for the highest order, and 0 for the ten below it.
abbrev pub at_top : ℕ → List ℕ
at_top v = 0 ∷ 0 ∷ 0 ∷ 0 ∷ 0 ∷ 0 ∷ 0 ∷ 0 ∷ 0 ∷ 0 ∷ v ∷ []

unfoldable pub linked : (ℕ → Link) → (p head : ℕ) → ℕ → Link
linked links p head =
    let a = update links p (record (links p) { next = head }) in
    let b = update a head (record (a head) { prev = p }) in update b p (record (b p) { prev = 0 })

pub linked_other :
    (links : ℕ → Link) (p head a : ℕ) → a ≢ p → a ≢ head → linked links p head a ≡ links a
unfolding linked
linked_other links p head a np nh = ground arith

pub linked_head :
    (links : ℕ → Link) (p head : ℕ)
    → head ≢ p
    → linked links p head head ≡ record (links head) { prev = p }
unfolding linked
linked_head links p head np = ground arith

pub linked_new :
    (links : ℕ → Link) (p head : ℕ) → linked links p head p ≡ record { prev = 0; next = head }
unfolding linked
linked_new links p head = elim (ℕ_discrete p head) [
  | yes same ↦ ground (arith, same)
  | no other ↦ ground (arith, other)
]

pub linked-IsChain :
    (s n : ℕ) (links : ℕ → Link) (head : ℕ)
    → 0 < s
    → IsChain links 0 head (blocks s n)
    → IsChain
        (linked links ((s + n) * max_block_size) head)
        0
        ((s + n) * max_block_size)
        (blocks s (suc n))
linked-IsChain s zero links head pos w =
    let new = linked_new links ((s + 0) * max_block_size) head in
    (refl, ap (λ (l : Link). l.prev) new, ap (λ (l : Link). l.next) new ∙ w)
linked-IsChain s (suc n) links head pos w =
    let p = (s + suc n) * max_block_size in
    let h = (s + n) * max_block_size in
    let new = linked_new links p h in
    let old = linked_head links p h (λ e. omega (arith, e)) in
    let rest : IsChain (linked links p h) h (links h).next (blocks s n) =
      IsChain-frame s n links (linked links p h) h (links h).next
        (λ j l.
          linked_other links p h ((s + j) * max_block_size) (λ e. omega arith) (λ e. omega arith))
        w.2 in
    subst (λ (x : ℕ). IsChain (linked links p x) 0 p (blocks s (suc (suc n)))) (sym w.0)
      (
        refl,
        ap (λ (l : Link). l.prev) new,
        (
          ap (λ (l : Link). l.next) new,
          ap (λ (l : Link). l.prev) old,
          subst (λ (x : ℕ). IsChain (linked links p h) h x (blocks s n))
              (sym (ap (λ (l : Link). l.next) old)) rest,
        ),
      )
