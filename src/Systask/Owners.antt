-- ===== src/Systask/Owners.antt =====
-- What requests make of the table of interrupt subscribers that kernel/modules/systask/systask.c keeps.
use omocha_os.Base.{ℕ, ◌&&◌, ◌==◌, if◌then◌else◌, List, get_or}
use omocha_os.Core.Process.{Message}
use omocha_os.Core.Run.{Run, ok, halted, fault, out_of_fuel}
use omocha_os.Systask.Env.{Env}

-- The subscribers after a request: those of before, where it ends without a result.
abbrev pub after : Env → Run (Env × List Message) → List ℕ
after e (ok (e', sent)) = e'.interrupt_suscribed
after e halted = e.interrupt_suscribed
after e fault = e.interrupt_suscribed
after e out_of_fuel = e.interrupt_suscribed

-- The subscriber of interrupt `i` that request `m` is to leave: for REG_INT_MSG, which is 7, the sender
-- is that of the interrupt `m` names, for UNREG_INT_MSG, which is 8, nobody is.
abbrev pub suscriber_after : Env → Message → (i : ℕ) → ℕ
suscriber_after e m i =
    if (m.type == 7) && (i == m.major)
    then m.sender
    else if (m.type == 8) && (i == m.major)
    then 0
    else get_or e.interrupt_suscribed i 0
