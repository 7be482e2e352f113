-- ===== src/Heap/Rounds.antt =====
-- One round of the search of kernel/modules/memory/kmem.c.
use omocha_os.Base.{
  ℕ, suc, ◌<◌, ◌≤◌, ◌≡◌, ◌≢◌, refl, ◌⊎◌, inl, inr, true, false, ◌==◌, ◌||◌, ltb, if◌then◌else◌,
  arith, dec_lt, ℕ_discrete,
}
use omocha_os.Core.Run.{ok}
use omocha_os.Heap.{rb_search_upper}
use omocha_os.Rbtree.{Node}

abbrev pub closer : (ℕ → Node) → (c a : ℕ) → ℕ
closer nodes c a = if (c == 0) || ltb (nodes a).key (nodes c).key then a else c

pub closer_lem :
    (nodes : ℕ → Node) (key c a : ℕ)
    → 0 < a
    → key < (nodes a).key
    → (0 < c → key ≤ (nodes c).key)
    → (0 < closer nodes c a)
      × (key ≤ (nodes (closer nodes c a)).key)
      × ((nodes (closer nodes c a)).key ≤ (nodes a).key)
      × (0 < c → (nodes (closer nodes c a)).key ≤ (nodes c).key)
      × ((closer nodes c a ≡ a) ⊎ ((0 < c) × (closer nodes c a ≡ c)))
closer_lem nodes key c a pos less before = elim (ℕ_discrete c 0) [
  | yes none ↦
      let e : closer nodes c a ≡ a = ground (arith, none) in
      rw e (pos, omega arith, omega arith, (λ h. omega arith), inl refl)
  | no some_block ↦ elim (dec_lt (nodes a).key (nodes c).key) [
    | yes smaller ↦
        let e : closer nodes c a ≡ a = ground (arith, smaller) in
        rw e (pos, omega arith, omega arith, (λ h. omega arith), inl refl)
    | no larger ↦
        let e : closer nodes c a ≡ c = ground (arith, some_block, larger) in
        rw e (
          omega arith,
          before (omega arith),
          omega arith,
          (λ h. omega arith),
          inr (omega arith, refl),
        )
  ]
]

pub rb_search_upper-null :
    (fuel : ℕ) (nodes : ℕ → Node) (key c : ℕ)
    → (nodes 0).key ≢ key
    → rb_search_upper (suc fuel) nodes 0 key c ≡ ok c
unfolding rb_search_upper
rb_search_upper-null fuel nodes key c other = ground (arith, other)

pub rb_search_upper-here :
    (fuel : ℕ) (nodes : ℕ → Node) (a c : ℕ)
    → 0 < a
    → rb_search_upper (suc fuel) nodes a (nodes a).key c ≡ ok a
unfolding rb_search_upper
rb_search_upper-here fuel nodes a c pos = ground arith

pub rb_search_upper-left :
    (fuel : ℕ) (nodes : ℕ → Node) (a key c : ℕ)
    → 0 < a
    → key < (nodes a).key
    → rb_search_upper (suc fuel) nodes a key c
      ≡ rb_search_upper fuel nodes (nodes a).left key (closer nodes c a)
unfolding rb_search_upper
rb_search_upper-left fuel nodes a key c pos less =
    let lower : ltb key (nodes a).key ≡ true = ground arith in
    let other : ((nodes a).key == key) ≡ false = ground arith in
    let there : (a == 0) ≡ false = ground arith in rw lower (rw other (rw there refl))

pub rb_search_upper-right :
    (fuel : ℕ) (nodes : ℕ → Node) (a key c : ℕ)
    → 0 < a
    → (nodes a).key < key
    → rb_search_upper (suc fuel) nodes a key c ≡ rb_search_upper fuel nodes (nodes a).right key c
unfolding rb_search_upper
rb_search_upper-right fuel nodes a key c pos more =
    let lower : ltb key (nodes a).key ≡ false = ground arith in
    let other : ((nodes a).key == key) ≡ false = ground arith in
    let there : (a == 0) ≡ false = ground arith in rw lower (rw other (rw there refl))
