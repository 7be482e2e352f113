-- ===== src/Core/Run.antt =====
-- The kernel's state, and what a run of kernel code comes to.
use omocha_os.Base.{ℕ, Bool, true, false, Option, List, ◌≡◌, refl}
use omocha_os.Core.Process.{Message, Process}

-- `struct interrupt_data`
pub record InterruptData : Type 0 where
  pub avail : ℕ
  pub info : ℕ

-- `messages` is the physical memory that holds messages, by the address of each.
pub record Kernel : Type 0 where
  pub procs : ℕ → Process
  pub messages : ℕ → Message
  pub words : ℕ → ℕ
  pub proc_list : Option ℕ
  pub proc_running : Option ℕ
  pub interrupt_data : List InterruptData
  pub exception_data : List InterruptData

-- `halted`: a panic or a failed assertion. In ring 0 it closes interrupts and spins; in a task it
-- prints and breaks into the debugger, and the model follows it no further. `fault`: a NULL process
-- pointer is followed, or an access leaves the memory of the model. `out_of_fuel`: a loop that has
-- not ended in the rounds given.
pub data Run {ℓ} (A : Type ℓ) : Type ℓ where
  ok : A → Run A
  halted : Run A
  fault : Run A
  out_of_fuel : Run A

infixl 5 ◌>>=◌ ◌>>◌
abbrev pub ◌>>=◌ {ℓ κ} : {A : Type ℓ} {B : Type κ} → Run A → (A → Run B) → Run B
ok a >>= f = f a
halted >>= f = halted
fault >>= f = fault
out_of_fuel >>= f = out_of_fuel

abbrev pub ◌>>◌ {ℓ} : {B : Type ℓ} → Run (Unit {0}) → Run B → Run B
m >> k = m >>= λ _. k

-- `assert(condition)`. Without `__DEBUG__` it is an empty macro.
abbrev pub assert : (debug condition : Bool) → Run (Unit {0})
assert true false = halted
assert true true = ok tt
assert false c = ok tt

pub assert-true : (debug : Bool) → assert debug true ≡ ok tt
assert-true true = refl
assert-true false = refl
