-- ===== src/Core/Process.antt =====
-- The process table of kernel/core: `struct __process` and `message` of
-- kernel/header/generic/typedefs.h, and the status bits of kernel/header/core/process.h.
-- A pointer to a process points into `proc_table`: it is the index, and `none` is NULL.
use omocha_os.Base.{ℕ, Option, List, ◌==◌, if◌then◌else◌}

abbrev pub running : ℕ
running = 0x001

abbrev pub got_int : ℕ
got_int = 0x004

abbrev pub got_exc : ℕ
got_exc = 0x008

abbrev pub normal : ℕ
normal = 0x000

abbrev pub stop : ℕ
stop = 0x010

abbrev pub error : ℕ
error = 0x020

abbrev pub sending : ℕ
sending = 0x040

abbrev pub receving : ℕ
receving = 0x080

abbrev pub wating : ℕ
wating = 0x100

abbrev pub hanging : ℕ
hanging = 0x200

abbrev pub proc_any : ℕ
proc_any = 0xffff_fffe

abbrev pub proc_interrupt : ℕ
proc_interrupt = 0xffff_ffff

-- `message`, with its union as the four words of `uint_arr`.
pub record Message : Type 0 where
  pub sender : ℕ
  pub receiver : ℕ
  pub ready : ℕ
  pub type : ℕ
  pub major : ℕ
  pub d1 : ℕ
  pub d2 : ℕ
  pub d3 : ℕ
  pub d4 : ℕ

-- The fields of `process` that the modelled code uses; of the saved stack frame, the selectors
-- and the registers that `init_proc` sets.
pub record Process : Type 0 where
  pub cs : ℕ
  pub ds : ℕ
  pub es : ℕ
  pub fs : ℕ
  pub gs : ℕ
  pub ss : ℕ
  pub eip : ℕ
  pub esp : ℕ
  pub eflags : ℕ
  pub page_dir : ℕ
  pub status : ℕ
  pub pid : ℕ
  pub parent_pid : ℕ
  pub name : List ℕ
  pub pstack : ℕ
  pub pstack_size : ℕ
  pub exit_status : ℕ
  pub p_msg : ℕ
  pub quene_head : Option ℕ
  pub quene_body : Option ℕ
  pub next : Option ℕ
  pub prog_info : ℕ

-- A write to one cell of a table or of memory.
abbrev pub update {ℓ} : {A : Type ℓ} → (ℕ → A) → ℕ → A → ℕ → A
update f k v = λ a. if a == k then v else f a
