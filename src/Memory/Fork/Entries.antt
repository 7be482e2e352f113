-- ===== src/Memory/Fork/Entries.antt =====
-- The entries of page tables that kernel/modules/memory/fork.c makes read-only.
use omocha_os.Base.{
  ℕ, zero, suc, ◌+◌, ◌-◌, ◌*◌, ◌/◌, ◌%◌, ◌^◌, ◌<◌, ◌≤◌, ◌≡◌, refl, ap, ◌∙◌, false, arith,
  ℕ_discrete, bit_and,
}
use omocha_os.Base.Bits.{and_odd, and_step, and-zero}
use omocha_os.Base.Flags.{has, lower, has-lower}
use omocha_os.Core.Paging.{vir2phy, frame}
use omocha_os.Core.Process.{update}
use omocha_os.Memory.Paging.{PageMemory, get_pte}
use omocha_os.Memory.Fork.{share_page}

some_power : (k : ℕ) → 1 ≤ 2 ^ k
some_power zero = omega arith
some_power (suc k) = omega (arith, some_power k)

and-ones : (k x : ℕ) → x < 2 ^ k → bit_and x (2 ^ k - 1) ≡ x
and-ones zero x h = and-zero x ∙ omega arith
and-ones (suc k) x h =
    let odd : 2 ^ suc k - 1 ≡ 2 * (2 ^ k - 1) + 1 = omega (arith, some_power k) in
    ap (bit_and x) odd ∙ and_odd x (2 ^ k - 1) ∙ omega (arith, and-ones k (x / 2) (omega arith))

lower_two : (w : ℕ) → w < 2 ^ 32 → lower w 2 ≡ w - w / 2 % 2 * 2
unfolding lower
lower_two w h =
    let even : bit_and (w / 2) (2 ^ 31 - 2) ≡ w / 4 * 2 =
      and_step (w / 2) (2 ^ 31 - 2) ∙ omega (arith, and-ones 30 (w / 2 / 2) (omega arith)) in
    and_odd w (2 ^ 31 - 2) ∙ omega (arith, even)

-- An entry that differs at most in a write bit that is gone.
pub record Alike (w w' : ℕ) : Type 0 where
  pub place : frame w' ≡ frame w
  pub present : has w' 1 ≡ has w 1
  pub large : has w' 0x80 ≡ has w 0x80
  pub word : w' < 2 ^ 32
  pub kept : has w 2 ≡ false → has w' 2 ≡ false

pub Alike-refl : (w : ℕ) → w < 2 ^ 32 → Alike w w
Alike-refl w h = record { place = refl; present = refl; large = refl; word = h; kept = λ e. e }

pub Alike-trans : {w w' w'' : ℕ} → Alike w w' → Alike w' w'' → Alike w w''
Alike-trans f g = record {
  place = g.place ∙ f.place;
  present = g.present ∙ f.present;
  large = g.large ∙ f.large;
  word = g.word;
  kept = λ e. g.kept (f.kept e);
}

pub lower-Alike : (w : ℕ) → w < 2 ^ 32 → Alike w (lower w 2)
lower-Alike w h = record {
  place = omega (arith, lower_two w h);
  present = has-lower w 1 0 (omega arith) (omega arith);
  large = has-lower w 1 7 (omega arith) (omega arith);
  word = omega (arith, lower_two w h);
  kept = λ e. has-lower w 1 1 (omega arith) (omega arith);
}

pub vir2phy-Alike :
    (words words' : ℕ → ℕ) (pg_dir va : ℕ)
    → ((a : ℕ) → Alike (words a) (words' a))
    → vir2phy words' pg_dir va ≡ vir2phy words pg_dir va
unfolding vir2phy
vir2phy-Alike words words' pg_dir va alike =
    let pde = alike (pg_dir + 4 * (va / 2 ^ 22)) in
    let pte = alike (frame (words (pg_dir + 4 * (va / 2 ^ 22))) + 4 * (va / 2 ^ 12 % 0x400)) in
    rw pde.present (rw pde.large (rw pde.place (rw pte.place refl)))

pub get_pte-Alike :
    (words words' : ℕ → ℕ) (pg_dir va : ℕ)
    → ((a : ℕ) → Alike (words a) (words' a))
    → get_pte words' pg_dir va ≡ get_pte words pg_dir va
unfolding get_pte
get_pte-Alike words words' pg_dir va alike =
    let pde = alike (pg_dir + 4 * (va / 2 ^ 22)) in rw pde.present (rw pde.place refl)

pub share_page-Alike :
    (s : PageMemory) (pg_dir va a : ℕ)
    → ((c : ℕ) → s.words c < 2 ^ 32)
    → Alike (s.words a) ((share_page s pg_dir va).words a)
unfolding share_page
share_page-Alike s pg_dir va a words = elim (ℕ_discrete a (get_pte s.words pg_dir va)) [
  | yes here ↦
      let e : update s.words (get_pte s.words pg_dir va)
            (lower (s.words (get_pte s.words pg_dir va)) 2) a
          ≡ lower (s.words a) 2 =
        ground (arith, here) in
      rw e (lower-Alike (s.words a) (words a))
  | no other ↦
      let e : update s.words (get_pte s.words pg_dir va)
            (lower (s.words (get_pte s.words pg_dir va)) 2) a
          ≡ s.words a =
        ground (arith, other) in
      rw e (Alike-refl (s.words a) (words a))
]

pub share_page-cleared :
    (s : PageMemory) (pg_dir va : ℕ)
    → has ((share_page s pg_dir va).words (get_pte s.words pg_dir va)) 2 ≡ false
unfolding share_page
share_page-cleared s pg_dir va =
    let pte = get_pte s.words pg_dir va in
    let e : update s.words pte (lower (s.words pte) 2) pte ≡ lower (s.words pte) 2 = ground arith in
    rw e (has-lower (s.words pte) 1 1 (omega arith) (omega arith))
