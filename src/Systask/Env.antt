-- ===== src/Systask/Env.antt =====
-- The part of `struct core_env` of kernel/header/core/environment.h that the system task of
-- kernel/modules/systask/systask.c uses.
use omocha_os.Base.{ℕ, List, [], ◌∷◌, ltb, if◌then◌else◌}
use omocha_os.Core.Process.{Message}
use omocha_os.Core.Run.{Kernel, Run, ok, fault}

-- `struct interrupt_method`, with `data` named `info`.
pub record Method : Type 0 where
  pub pid : ℕ
  pub func : ℕ
  pub info : ℕ
  pub avail : ℕ

-- `copies` are the words written to buffers of other tasks, with their physical addresses, and
-- `freed` the stacks given to `kfree_pages`, the latest first.
pub record Env : Type 0 where
  pub kernel : Kernel
  pub beats : ℕ
  pub mem_lower : ℕ
  pub mem_upper : ℕ
  pub boot_info : List ℕ
  pub core_vend : ℕ
  pub core_space_start : ℕ
  pub core_space_free_start : ℕ
  pub core_space_free_end : ℕ
  pub core_space_end : ℕ
  pub memory_end : ℕ
  pub memory_zone : List ℕ
  pub memory_zone_count : ℕ
  pub proc_table : ℕ
  pub proc_count : ℕ
  pub proc_max : ℕ
  pub proc_bitmap : List ℕ
  pub interrupt_methods : List Method
  pub interrupt_suscribed : List ℕ
  pub exception_suscribed : List ℕ
  pub copies : List (ℕ × List ℕ)
  pub freed : List ℕ

abbrev pub hw_irq_count : ℕ
hw_irq_count = 16

abbrev pub exception_count : ℕ
exception_count = 32

-- `msg.major = major; SEND_BACK(msg);`: the messages sent.
abbrev pub send_back : Message → ℕ → List Message
send_back m v = record m { receiver = m.sender; major = v } ∷ []

-- An access to entry `i` of a table of `n`. Beyond it lies memory that the model does not have.
abbrev pub in_table : (i n : ℕ) → Run (Unit {0})
in_table i n = if ltb i n then ok tt else fault
