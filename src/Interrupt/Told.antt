-- ===== src/Interrupt/Told.antt =====
-- What becomes of an interrupt or exception that kernel/core/interrupt.c sends to a process.
use omocha_os.Base.{
  ℕ, zero, suc, ◌+◌, ◌<◌, ◌≡◌, ◌≢◌, refl, Bool, true, false, List, [], ◌∷◌, set, length, arith,
}
use omocha_os.Base.Flags.{has, raise, lower, has-raise, has-lower}
use omocha_os.Core.Process.{proc_interrupt, receving, got_int}
use omocha_os.Core.Run.{Kernel, InterruptData, ok, assert-true}
use omocha_os.Core.Ipc.{p_msg_pa, set_message}
use omocha_os.Core.Ipc.Receive.{take_interrupt, msg_interrupt}
use omocha_os.Core.Ipc.Receive.Pending.{pending, take_interrupt_lem}
use omocha_os.Interrupt.{set_status, wants_interrupt, send_interrupt_msg}

-- Entry `n` becomes the only pending one.
pending-set :
    (ds : List InterruptData) (i n irq info : ℕ)
    → pending ds i ≡ []
    → n < length ds
    → irq ≡ i + n
    → irq ≢ 0
    → pending (set ds n (record { avail = 1; info = info })) i ≡ irq ∷ []
unfolding pending
pending-set [] i n irq info none h at nz = absurd (omega arith)
pending-set (d ∷ ds) i zero irq info none h at nz =
    let here : i ≡ irq = omega arith in ground (arith, here)
pending-set (d ∷ ds) i (suc n) irq info none h at nz =
    let rest = pending-set ds (i + 1) n irq info (ground arith) (omega arith) (omega arith) nz in
    ground (arith, rest)

module _ (debug : Bool) (proc_count : ℕ) (k : Kernel) (irq p : ℕ) (known : p < proc_count) where
  -- A process, below the count of processes, that waits for an interrupt is told it at once and
  -- waits no more; the mark of a pending interrupt and the pending interrupts are as before.
  send_interrupt_msg_told :
      wants_interrupt k p ≡ true
      → (k' : Kernel) × (send_interrupt_msg debug proc_count k irq p ≡ ok k')
        × ((k'.messages (p_msg_pa k p)).type ≡ msg_interrupt)
        × ((k'.messages (p_msg_pa k p)).major ≡ irq)
        × ((k'.messages (p_msg_pa k p)).sender ≡ proc_interrupt)
        × (has (k'.procs p).status receving ≡ false)
        × (has (k'.procs p).status got_int ≡ has (k.procs p).status got_int)
        × (k'.interrupt_data ≡ k.interrupt_data)
  unfolding send_interrupt_msg
  send_interrupt_msg_told waits =
      let pa = p_msg_pa k p in
      let told = record (k.messages pa) {
        sender = proc_interrupt;
        type = msg_interrupt;
        major = irq;
      } in
      let status = (k.procs p).status in
      (
        set_status (set_message k pa told) p (lower status receving),
        ground (arith, waits, assert-true debug),
        ground arith,
        ground arith,
        ground arith,
        ground (arith, has-lower status 7 7 (omega arith) (omega arith)),
        ground (arith, has-lower status 7 2 (omega arith) (omega arith)),
        refl,
      )

  -- An interrupt other than 0 that a process does not wait for is kept: where no other is pending,
  -- the branch for pending interrupts of the next receive by that process is told this one, and
  -- none is left. The number of the process is below the count of processes, that of the interrupt
  -- inside its table.
  pub take_interrupt-send_interrupt_msg :
      (pa : ℕ)
      → wants_interrupt k p ≡ false
      → irq ≢ 0
      → irq < length k.interrupt_data
      → pending k.interrupt_data 0 ≡ []
      → (k' : Kernel) × (k2 : Kernel) × (send_interrupt_msg debug proc_count k irq p ≡ ok k')
        × (take_interrupt debug k' p pa ≡ ok k2)
        × ((k2.messages pa).major ≡ irq)
        × (pending k2.interrupt_data 0 ≡ [])
        × (has (k2.procs p).status got_int ≡ false)
  unfolding send_interrupt_msg
  take_interrupt-send_interrupt_msg pa busy nz h none =
      let status = (k.procs p).status in
      let kept = record (set_status k p (raise status got_int)) {
        interrupt_data = set k.interrupt_data irq (record { avail = 1; info = irq });
      } in
      let only : pending kept.interrupt_data 0 ≡ irq ∷ [] =
        pending-set k.interrupt_data 0 irq irq irq none h (omega arith) nz in
      let marked : has (kept.procs p).status got_int ≡ true =
        ground (arith, has-raise status 2 2) in
      let (k2, taken, t, major, sender, left, unmarked) =
        take_interrupt_lem debug kept p pa irq [] only marked in
      (kept, k2, ground (arith, busy, assert-true debug), taken, major, left, unmarked)
