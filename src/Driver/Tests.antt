-- ===== src/Driver/Tests.antt =====
-- Three drivers, of the levels 1, 3 and 2.
use omocha_os.Base.{ℕ, ◌-◌, ◌≡◌, ◌≤◌, refl, ◌⊎◌, ◌↔◌, false, Option, some, List, [], ◌∷◌, arith}
use mathlib.Core.List.{Perm}
use omocha_os.Core.Run.{ok}
use omocha_os.Driver.{
  Declaration, level_rank, insert_before, insert_driver, insert_drivers, sort_drivers,
  core_init_driver,
}
use omocha_os.Driver.Order.{Falls, Fits, AllStarted, insert_driver-Falls, core_init_driver-perm}

abbrev driver : ℕ → Declaration
driver level = record {
  name = [];
  level = level;
  major_ver = 1;
  minor_ver = 0;
  initialized = false;
}

-- The driver of level 2 comes before that of level 1.
misplaced : sort_drivers (driver 1 ∷ driver 3 ∷ driver 2 ∷ []) ≡ driver 2 ∷ driver 1 ∷ driver 3 ∷ []
unfolding sort_drivers insert_drivers insert_driver insert_before
misplaced = refl

insert_driver-Falls_example :
    Falls 0xffff_ffff (insert_driver (driver 2) (driver 3 ∷ driver 1 ∷ []))
    ↔ ((level_rank (driver 3) ≤ level_rank (driver 2)) ⊎ Fits (driver 2) (driver 3) (driver 1 ∷ []))
insert_driver-Falls_example =
    insert_driver-Falls (driver 2) (driver 3) (driver 1 ∷ []) 0xffff_ffff (omega arith)
      (omega arith)

-- The function of each driver returns its level minus 1: that of level 3 does not start.
abbrev from_level : Declaration → Option ℕ
from_level d = some (d.level - 1)

core_init_driver-perm_example :
    (order : List Declaration) × (out : List Declaration) × (core_init_driver from_level
        (driver 1 ∷ driver 3 ∷ [])
      ≡ ok out)
    × Perm order (driver 1 ∷ driver 3 ∷ [])
    × AllStarted from_level order out
core_init_driver-perm_example = core_init_driver-perm from_level (driver 1) (driver 3 ∷ [])
