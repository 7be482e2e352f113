-- ===== src/Core/Ipc/Receive/Pending.antt =====
-- The pending interrupts that `__recv_msg` of kernel/core/syscall_impl.c looks through.
use omocha_os.Base.{
  ℕ, suc, ◌+◌, ◌≡◌, ◌≢◌, refl, ap, ◌∙◌, Bool, true, false, not, ◌&&◌, List, [], ◌∷◌, get_or, set,
  ◌==◌, if◌then◌else◌, arith, Bool-cases, inl, inr,
}
use omocha_os.Base.Flags.{has, has-lower}
use omocha_os.Core.Process.{got_int, proc_interrupt}
use omocha_os.Core.Run.{assert-true, Kernel, InterruptData, ok}
use omocha_os.Core.Ipc.Receive.{
  scan_pending, no_data, tell_interrupt, take_interrupt, msg_interrupt,
}

-- The numbers of the pending entries, from entry `i` on; number 0, the clock, does not count.
unfoldable pub pending : List InterruptData → ℕ → List ℕ
pending [] i = []
pending (d ∷ ds) i =
    if (d.avail == 1) && not (i == 0) then i ∷ pending ds (i + 1) else pending ds (i + 1)

abbrev pub is_nonempty : List ℕ → Bool
is_nonempty [] = false
is_nonempty (x ∷ xs) = true

abbrev first_two : List ℕ → ℕ × Bool
first_two [] = (0, false)
first_two (x ∷ xs) = (x, is_nonempty xs)

scan-second :
    (ds : List InterruptData) (i irq : ℕ)
    → irq ≢ 0
    → i ≢ 0
    → scan_pending ds i irq ≡ (irq, is_nonempty (pending ds i))
unfolding scan_pending pending
scan-second [] i irq ne p = refl
scan-second (d ∷ ds) i irq ne p = ground (arith, scan-second ds (i + 1) irq ne)

scan-first : (ds : List InterruptData) (i : ℕ) → scan_pending ds i 0 ≡ first_two (pending ds i)
unfolding scan_pending pending
scan-first [] i = refl
scan-first (d ∷ ds) i = ground (arith, scan-first ds (i + 1), scan-second ds (i + 1) i)

abbrev cleared : List InterruptData → ℕ → List InterruptData
cleared ds n = set ds n (record (get_or ds n no_data) { avail = 0 })

-- Clearing the first pending entry leaves the others pending.
pending-clear :
    (ds : List InterruptData) (i irq : ℕ) (rest : List ℕ)
    → pending ds i ≡ irq ∷ rest
    → (n : ℕ) × (irq ≡ i + n) × (irq ≢ 0) × (pending (cleared ds n) i ≡ rest)
unfolding pending
pending-clear [] i irq rest h = absurd (cc)
pending-clear (d ∷ ds) i irq rest h = elim (Bool-cases ((d.avail == 1) && not (i == 0))) [
  | inl hit ↦ (0, ground arith, ground arith, ground arith)
  | inr miss ↦
      let (n, at, ne, e) = pending-clear ds (i + 1) irq rest (ground arith) in
      (suc n, omega arith, ne, ground (arith, e))
]

module _ (debug : Bool) (k : Kernel) (receiver pa irq : ℕ) (rest : List ℕ) where
  -- The receiver is told the lowest interrupt that is pending anywhere, whichever process has
  -- subscribed to it. That one is no longer pending, the others still are, and the receiver keeps
  -- the mark of a pending interrupt exactly if there are others.
  pub take_interrupt_lem :
      pending k.interrupt_data 0 ≡ irq ∷ rest
      → has (k.procs receiver).status got_int ≡ true
      → (k' : Kernel) × (take_interrupt debug k receiver pa ≡ ok k')
        × ((k'.messages pa).type ≡ msg_interrupt)
        × ((k'.messages pa).major ≡ irq)
        × ((k'.messages pa).sender ≡ proc_interrupt)
        × (pending k'.interrupt_data 0 ≡ rest)
        × (has (k'.procs receiver).status got_int ≡ is_nonempty rest)
  unfolding take_interrupt
  take_interrupt_lem h g =
      let (n, at, ne, left) = pending-clear k.interrupt_data 0 irq rest h in
      let scan : scan_pending k.interrupt_data 0 0 ≡ (irq, is_nonempty rest) =
        scan-first k.interrupt_data 0 ∙ ap first_two h in
      let same : n ≡ irq = omega arith in
      (
        tell_interrupt k receiver pa irq (is_nonempty rest),
        ground (arith, scan, assert-true debug),
        ground arith,
        ground arith,
        ground arith,
        rw same at left,
        ground (arith, has-lower (k.procs receiver).status 2 2 (omega arith) (omega arith)),
      )
