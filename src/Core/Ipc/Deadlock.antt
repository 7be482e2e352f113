-- ===== src/Core/Ipc/Deadlock.antt =====
-- `__is_dead_lock` of kernel/core/syscall_impl.c against chains of senders.
use omocha_os.Base.{
  ℕ, zero, suc, ◌<◌, ◌≡◌, refl, inl, inr, Bool, true, false, ◌==◌, if◌then◌else◌, arith, Bool-cases,
  ◌↔◌, ℕ_discrete,
}
use omocha_os.Core.Run.{Kernel, ok}
use omocha_os.Core.Ipc.{is_sending, target, is_dead_lock}

-- A chain of processes, each sending to the next, leads from `p` to `src`.
pub data Leads (k : Kernel) (src : ℕ) : ℕ → Type 0 where
  last : {p : ℕ} → is_sending k p ≡ true → target k p ≡ src → Leads k src p
  step : {p : ℕ} → is_sending k p ≡ true → Leads k src (target k p) → Leads k src p

-- No process waits for itself through others: every sender ranks above the process it sends to.
pub record Acyclic (k : Kernel) (rank : ℕ → ℕ) : Type 0 where
  pub falls : (p : ℕ) → is_sending k p ≡ true → rank (target k p) < rank p

module _ (k : Kernel) (src : ℕ) where
  -- The check finds a chain only where there is one.
  is_dead_lock_sound : (fuel p : ℕ) → is_dead_lock fuel k src p ≡ ok true → Leads k src p
  unfolding is_dead_lock
  is_dead_lock_sound zero p h = absurd (cc)
  is_dead_lock_sound (suc fuel) p h = elim (Bool-cases (is_sending k p)) [
    | inl s ↦ elim (ℕ_discrete (target k p) src) [
      | yes e ↦ Leads.last s e
      | no ne ↦ Leads.step s (is_dead_lock_sound fuel (target k p) (ground arith))
    ]
    | inr n ↦ absurd (ground arith)
  ]

  is_dead_lock_complete : (fuel p : ℕ) → is_dead_lock fuel k src p ≡ ok false → ¬ (Leads k src p)
  unfolding is_dead_lock
  is_dead_lock_complete zero p h l = cc
  is_dead_lock_complete (suc fuel) p h (Leads.last s t) = ground arith
  is_dead_lock_complete (suc fuel) p h (Leads.step s l) =
      is_dead_lock_complete fuel (target k p) (ground arith) l

  is_dead_lock_total :
      (rank : ℕ → ℕ)
      → Acyclic k rank
      → (fuel p : ℕ) → rank p < fuel
      → (b : Bool) × (is_dead_lock fuel k src p ≡ ok b)
  unfolding is_dead_lock
  is_dead_lock_total rank a zero p h = absurd (omega arith)
  is_dead_lock_total rank a (suc fuel) p h = elim (Bool-cases (is_sending k p)) [
    | inl s ↦
        let (b, e) = is_dead_lock_total rank a fuel (target k p) (omega (arith, a.falls p s)) in
        (if target k p == src then true else b, ground (arith, s, e))
    | inr n ↦ (false, ground (arith, n))
  ]

-- Where no process waits for itself, and the fuel exceeds the rank of `p`, the check ends and says
-- whether a chain of senders leads from `p` to `src`.
pub is_dead_lock_lem :
    (k : Kernel) (rank : ℕ → ℕ) (src fuel p : ℕ)
    → Acyclic k rank
    → rank p < fuel
    → (b : Bool) × (is_dead_lock fuel k src p ≡ ok b) × ((b ≡ true) ↔ Leads k src p)
is_dead_lock_lem k rank src fuel p a h =
    let (b, e) = is_dead_lock_total k src rank a fuel p h in (b, e, decided b e)
  where
    decided : (b : Bool) → is_dead_lock fuel k src p ≡ ok b → (b ≡ true) ↔ Leads k src p
    decided true e = (λ _. is_dead_lock_sound k src fuel p e, λ _. refl)
    decided false e = (λ c. absurd (cc), λ l. absurd (is_dead_lock_complete k src fuel p e l))
