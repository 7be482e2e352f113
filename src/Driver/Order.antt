-- ===== src/Driver/Order.antt =====
-- What the list of kernel/core/driver.c keeps, and when its order is that of the levels.
use omocha_os.Base.{
  ℕ, ◌<◌, ◌≤◌, ◌≡◌, refl, ◌⊎◌, inl, inr, ◌↔◌, true, false, leb, List, [], ◌∷◌, ◌++◌, arith, dec_lt,
  Bool-cases, subst, append-nil, Option, none, some, zero, suc, ◌^◌,
}
use mathlib.Core.List.{reverse_perm, Perm, perm_middle, perm-append_left_iff}
use mathlib.Core.List.Perm
use omocha_os.Driver.{
  Declaration, level_rank, insert_before, insert_driver, insert_drivers, sort_drivers, init_driver,
  init_drivers, core_init_driver,
}
use omocha_os.Core.Run.{ok}

-- Ranks fall from `bound` on, from the tail of the list to its head.
abbrev pub Falls : (bound : ℕ) → List Declaration → Type 0
Falls bound [] = Unit
Falls bound (d ∷ ds) = (level_rank d ≤ bound) × Falls (level_rank d) ds

-- `this` has a place in front of the tail: behind one that is not the head and no higher, or before
-- a head that is no lower.
abbrev pub Fits : (this p : Declaration) → List Declaration → Type 0
Fits this p [] = level_rank this ≤ level_rank p
Fits this p (q ∷ qs) = (level_rank p ≤ level_rank this) ⊎ Fits this q qs

later :
    (this p q : Declaration) (qs : List Declaration)
    → level_rank this < level_rank p
    → (level_rank p ≤ level_rank this) ⊎ Fits this q qs
    → Fits this q qs
later this p q qs h (inl le) = absurd (omega arith)
later this p q qs h (inr f) = f

after :
    (this p : Declaration) (qs : List Declaration)
    → level_rank this < level_rank p
    → (level_rank p ≤ level_rank this) ⊎ Fits this p qs
    → Fits this p qs
after this p qs h (inl le) = absurd (omega arith)
after this p qs h (inr f) = f

insert_before-Falls :
    (this p : Declaration) (qs : List Declaration) (bound : ℕ)
    → Falls bound (p ∷ qs)
    → level_rank this ≤ bound
    → Falls bound (insert_before this p qs) ↔ Fits this p qs
unfolding insert_before
insert_before-Falls this p [] bound w h = ((λ s. s.1.0), (λ f. (w.0, (f, tt))))
insert_before-Falls this p (q ∷ qs) bound w h = elim (dec_lt (level_rank this) (level_rank p)) [
  | yes higher ↦
      let step : leb (level_rank p) (level_rank this) ≡ false = ground arith in
      let (down, up) = insert_before-Falls this q qs (level_rank p) w.1 (omega arith) in
      rw step ((λ s. inr (down s.1)), (λ f. (w.0, up (later this p q qs higher f))))
  | no low ↦
      let stop : leb (level_rank p) (level_rank this) ≡ true = ground arith in
      rw stop ((λ s. inl (omega arith)), (λ f. (h, (omega arith, w.1))))
]

-- A list of drivers whose levels fall from its tail to its head, none above `bound`, falls again with
-- a new driver, not above `bound` either, exactly if the tail is no higher than the new one, or a
-- driver between tail and head is, or the head is no lower.
pub insert_driver-Falls :
    (this tail : Declaration) (before : List Declaration) (bound : ℕ)
    → Falls bound (tail ∷ before)
    → level_rank this ≤ bound
    → Falls bound (insert_driver this (tail ∷ before))
      ↔ ((level_rank tail ≤ level_rank this) ⊎ Fits this tail before)
unfolding insert_driver
insert_driver-Falls this tail before bound w h = elim (dec_lt (level_rank this) (level_rank tail)) [
  | yes higher ↦
      let step : leb (level_rank tail) (level_rank this) ≡ false = ground arith in
      let (down, up) = insert_before-Falls this tail before bound w h in
      rw step ((λ s. inr (down s)), (λ f. up (after this tail before higher f)))
  | no low ↦
      let stop : leb (level_rank tail) (level_rank this) ≡ true = ground arith in
      rw stop ((λ s. inl (omega arith)), (λ f. (h, (omega arith, w.1))))
]

insert_before-perm :
    (this p : Declaration) (qs : List Declaration) → Perm (insert_before this p qs) (this ∷ p ∷ qs)
unfolding insert_before
insert_before-perm this p [] = Perm.swap this p []
insert_before-perm this p (q ∷ qs) = elim (Bool-cases (leb (level_rank p) (level_rank this))) [
  | inl stop ↦ rw stop (Perm.refl _)
  | inr step ↦
      rw step (Perm.trans (Perm.cons p (insert_before-perm this q qs)) (Perm.swap this p (q ∷ qs)))
]

insert_driver-perm :
    (this : Declaration) (ds : List Declaration) → Perm (insert_driver this ds) (this ∷ ds)
unfolding insert_driver
insert_driver-perm this [] = Perm.refl _
insert_driver-perm this (tail ∷ before) =
    elim (Bool-cases (leb (level_rank tail) (level_rank this))) [
      | inl stop ↦ rw stop (Perm.refl _)
      | inr step ↦ rw step (insert_before-perm this tail before)
    ]

insert_drivers-perm : (ds tail : List Declaration) → Perm (insert_drivers ds tail) (ds ++ tail)
unfolding insert_drivers
insert_drivers-perm [] tail = Perm.refl tail
insert_drivers-perm (d ∷ ds) tail =
    Perm.trans (insert_drivers-perm ds (insert_driver d tail))
      (Perm.trans ((perm-append_left_iff ds).1 (insert_driver-perm d tail)) (perm_middle ds tail))

sort_drivers-perm : (ds : List Declaration) → Perm (sort_drivers ds) ds
unfolding sort_drivers
sort_drivers-perm ds = Perm.trans (reverse_perm (insert_drivers ds [])) (
    subst (λ (xs : List Declaration). Perm (insert_drivers ds []) xs) (append-nil ds)
      (insert_drivers-perm ds []))

-- A driver of a level from 0 on counts as started where it has no function or its function returns
-- 0, and as not started where it returns another number; one of a negative level is left alone.
abbrev pub Started : (init : Declaration → Option ℕ) → (d d' : Declaration) → Type 0
Started init d d' =
    ((2 ^ 31 ≤ d.level) × (d' ≡ d))
    ⊎ ((d.level < 2 ^ 31)
        × ((((init d ≡ none) ⊎ (init d ≡ some 0)) × (d' ≡ record d { initialized = true }))
            ⊎ ((r : ℕ) × (init d ≡ some (suc r)) × (d' ≡ record d { initialized = false }))))

abbrev pub AllStarted : (init : Declaration → Option ℕ) → (ds ds' : List Declaration) → Type 0
AllStarted init [] [] = Unit
AllStarted init [] (d' ∷ ds') = ⊥
AllStarted init (d ∷ ds) [] = ⊥
AllStarted init (d ∷ ds) (d' ∷ ds') = Started init d d' × AllStarted init ds ds'

init_driver-Started :
    (init : Declaration → Option ℕ) (d : Declaration) → Started init d (init_driver init d)
unfolding init_driver
init_driver-Started init d = elim (dec_lt d.level (2 ^ 31)) [
  | no negative ↦ inl (omega arith, ground arith)
  | yes from_zero ↦ inr (from_zero, started from_zero (init d) refl)
]
  where
    started :
        d.level < 2 ^ 31
        → (r : Option ℕ) → init d ≡ r
        → (((init d ≡ none) ⊎ (init d ≡ some 0))
            × ((init_driver init d) ≡ record d { initialized = true }))
          ⊎ ((r : ℕ) × (init d ≡ some (suc r))
              × ((init_driver init d) ≡ record d { initialized = false }))
    started h none e = inl (inl e, ground (arith, h, e))
    started h (some zero) e = inl (inr e, ground (arith, h, e))
    started h (some (suc r)) e = inr (r, e, ground (arith, h, e))

init_drivers-AllStarted :
    (init : Declaration → Option ℕ) (ds : List Declaration)
    → AllStarted init ds (init_drivers init ds)
unfolding init_drivers
init_drivers-AllStarted init [] = tt
init_drivers-AllStarted init (d ∷ ds) =
    (init_driver-Started init d, init_drivers-AllStarted init ds)

-- Of one driver or more, the list keeps all in some order; in that order, each of a level from 0 on
-- is marked as started where it has no function or its function returns 0 and as not started
-- otherwise, and each of a negative level is left as it was.
pub core_init_driver-perm :
    (init : Declaration → Option ℕ) (d : Declaration) (ds : List Declaration)
    → (order : List Declaration) × (out : List Declaration) × (core_init_driver init (d ∷ ds)
        ≡ ok out)
      × Perm order (d ∷ ds)
      × AllStarted init order out
unfolding core_init_driver
core_init_driver-perm init d ds =
    let order = sort_drivers (d ∷ ds) in
    (
      order,
      init_drivers init order,
      refl,
      sort_drivers-perm (d ∷ ds),
      init_drivers-AllStarted init order,
    )
