-- ===== src/Driver.antt =====
-- kernel/core/driver.c: the order in which drivers start. The list that the code links in one page
-- is given from its tail to its head, the way the code walks it. `init` is what the function of a
-- driver returns, none where the driver has no function.
pub mod Order
mod Tests
use omocha_os.Base.{
  ℕ, ◌+◌, ◌-◌, ◌%◌, ◌^◌, Bool, true, false, not, ◌==◌, ◌&&◌, ◌||◌, leb, Option, none, some, List,
  [], ◌∷◌, if◌then◌else◌,
}
use mathlib.Core.List.{reverse}
use omocha_os.Core.Run.{Run, ok, fault}
use omocha_os.Systask.Processes.{same_name}

-- `Driver_Declaration`, without its magic number, function and link.
pub record Declaration : Type 0 where
  pub name : List ℕ
  pub level : ℕ
  pub major_ver : ℕ
  pub minor_ver : ℕ
  pub initialized : Bool

-- The level is a signed number; ranks compare as levels do.
abbrev pub level_rank : Declaration → ℕ
level_rank d = (d.level + 2 ^ 31) % 2 ^ 32

-- The walk from `p` on, with the drivers before it, nearest first. The head is not compared.
unfoldable pub insert_before : (this p : Declaration) → List Declaration → List Declaration
insert_before this p [] = p ∷ this ∷ []
insert_before this p (q ∷ qs) =
    if leb (level_rank p) (level_rank this) then this ∷ p ∷ q ∷ qs else p ∷ insert_before this q qs

-- One driver, put behind the tail where its level is not lower.
unfoldable pub insert_driver : (this : Declaration) → List Declaration → List Declaration
insert_driver this [] = this ∷ []
insert_driver this (tail ∷ before) =
    if leb (level_rank tail) (level_rank this)
    then this ∷ tail ∷ before
    else insert_before this tail before

-- The drivers one after the other.
unfoldable pub insert_drivers : List Declaration → List Declaration → List Declaration
insert_drivers [] tail = tail
insert_drivers (d ∷ ds) tail = insert_drivers ds (insert_driver d tail)

-- The list from head to tail.
unfoldable pub sort_drivers : List Declaration → List Declaration
unfolding insert_drivers
sort_drivers ds = reverse (insert_drivers ds [])

-- A driver of a negative level stays as it is.
unfoldable pub init_driver : (init : Declaration → Option ℕ) → Declaration → Declaration
init_driver init d =
    if leb (2 ^ 31) d.level
    then d
    else record d { initialized = elim (init d) [ none ↦ true | some r ↦ r == 0 ] }

unfoldable pub init_drivers : (init : Declaration → Option ℕ) → List Declaration → List Declaration
init_drivers init [] = []
init_drivers init (d ∷ ds) = init_driver init d ∷ init_drivers init ds

-- Without any driver the code goes on from NULL.
unfoldable pub core_init_driver :
    (init : Declaration → Option ℕ) → List Declaration → Run (List Declaration)
core_init_driver init [] = fault
core_init_driver init (d ∷ ds) = ok (init_drivers init (sort_drivers (d ∷ ds)))

-- The result is -1 for a name that no driver has; bit 0 is another version, and bit 1 a driver that
-- did not start.
unfoldable pub check_driver_exists : (name : List ℕ) → (major minor : ℕ) → List Declaration → ℕ
check_driver_exists name major minor [] = 2 ^ 32 - 1
check_driver_exists name major minor (d ∷ ds) =
    let version : ℕ = if not (major == d.major_ver) || not (minor == d.minor_ver) then 1 else 0 in
    if same_name name d.name
    then version + (if d.initialized then 0 else 2)
    else check_driver_exists name major minor ds
