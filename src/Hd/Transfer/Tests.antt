-- ===== src/Hd/Transfer/Tests.antt =====
-- 700 bytes that are written to sectors 9 and 10 and read again.
use omocha_os.Base.{ℕ, ◌+◌, ◌<◌, ◌≤◌, ◌≡◌, ◌⊎◌, true, false, arith}
use omocha_os.Core.Run.{ok}
use omocha_os.Hd.Transfer.{HdState, hd_rw}
use omocha_os.Hd.Transfer.Loops.{stored}
use omocha_os.Hd.Transfer.Sectors.{hd_rw-hd_rw}

abbrev start : HdState
start = record { disk = λ q i. q; mem = λ a. a; hd_buf = λ i. 0 }

hd_rw-hd_rw_example :
    (s1 : HdState) × (s2 : HdState) × (hd_rw 3 true start 0x5000 0 9 700 ≡ ok s1)
    × (hd_rw 3 false s1 0x7000 0 9 700 ≡ ok s2)
    × ((b : ℕ) → b < 700 → s2.mem (0x7000 + b) ≡ 0x5000 + b)
    × ((q i : ℕ) → i < 512 → s2.disk q i ≡ stored start 0x5000 9 700 q i)
    × ((a : ℕ) → (a < 0x7000) ⊎ (0x7000 + 700 ≤ a) → s2.mem a ≡ a)
hd_rw-hd_rw_example =
    hd_rw-hd_rw 3 start 0x5000 0x7000 0 9 700 (omega arith) (omega arith) (omega arith)
      (omega arith)
