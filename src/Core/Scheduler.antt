-- ===== src/Core/Scheduler.antt =====
-- `scheduler` of kernel/core/process.c.
pub mod Ring
use omocha_os.Base.{ℕ, zero, suc, bit_and, Bool, not, Option, none, some, ◌==◌, if◌then◌else◌}
use omocha_os.Core.Process.{Process}
use omocha_os.Core.Run.{Kernel, Run, ok, fault, out_of_fuel}

-- `UNRUNABLE`
abbrev pub unrunable : ℕ
unrunable = 0x3f0

-- `(status & 0xFF) & UNRUNABLE`
unfoldable pub is_unrunable : ℕ → Bool
is_unrunable status = not (bit_and (bit_and status 0xff) unrunable == 0)

-- The process after `p` in the list, or the head of the list behind the last.
unfoldable pub next_of : Kernel → ℕ → Option ℕ
next_of k p = elim ((k.procs p).next) [ none ↦ k.proc_list | some q ↦ some q ]

abbrev pub run_on : Kernel → ℕ → Kernel
run_on k q = record k { proc_running = some q }

-- The `do` loop, one round for each unit of fuel. `idle` is what the interrupts do that are taken
-- at `hlt`.
module _ (idle : Kernel → Kernel) where
  unfoldable pub schedule_from : ℕ → Kernel → (cur : ℕ) → Run Kernel
  schedule_from zero k cur = out_of_fuel
  schedule_from (suc fuel) k cur = elim (k.proc_running) [
    | none ↦ fault
    | some p ↦ elim (next_of k p) [
      | none ↦ fault
      | some q ↦
          let k' = if q == cur then idle (run_on k q) else run_on k q in
          elim (k'.proc_running) [
            | none ↦ fault
            | some r ↦
                let rest = schedule_from fuel k' cur in
                if is_unrunable (k'.procs r).status then rest else ok k'
          ]
    ]
  ]

  unfoldable pub scheduler : ℕ → Kernel → Run Kernel
  unfolding schedule_from
  scheduler fuel k = elim (k.proc_running) [ none ↦ ok k | some cur ↦ schedule_from fuel k cur ]
