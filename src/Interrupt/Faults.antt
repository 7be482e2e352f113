-- ===== src/Interrupt/Faults.antt =====
-- The status of a process whose exception kernel/core/interrupt.c handles.
use omocha_os.Base.{ℕ, ◌≡◌, refl, ◌∙◌, ap, false, arith}
use omocha_os.Base.Bits.{bit, bit-le-one, and-pow}
use omocha_os.Base.Flags.{has, has-eq-bit}
use omocha_os.Core.Process.{error}
use omocha_os.Core.Scheduler.{is_unrunable}
use omocha_os.Interrupt.{faulted}

-- The status that a process is given when it faults, if it had no error before, lets the scheduler
-- run it.
is_unrunable-faulted :
    (status : ℕ) → has status error ≡ false → is_unrunable (faulted status) ≡ false
unfolding is_unrunable
is_unrunable-faulted status clean =
    let clear : bit status 5 ≡ 0 =
      ground (arith, has-eq-bit status 5, bit-le-one status 5, clean) in
    let none : faulted status ≡ 0 = and-pow status 5 ∙ rw clear refl in ap is_unrunable none ∙ refl
