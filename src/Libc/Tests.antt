-- ===== src/Libc/Tests.antt =====
-- The theorems on `memcpy` and `itoa` at small inputs.
use omocha_os.Base.{ℕ, ◌≡◌, List, [], ◌∷◌, arith}
use omocha_os.Core.Run.{ok}
use omocha_os.Libc.Itoa.{read, IsNumeral}
use omocha_os.Libc.Format.{number, vsprintf, vsprintf-decimal}

-- `a%d` of the word that stands for -5.
vsprintf-decimal_example :
    (ds : List ℕ) × (vsprintf 3 6 (97 ∷ 37 ∷ 100 ∷ []) (number 0xffff_fffb ∷ [])
      ≡ ok (97 ∷ 45 ∷ ds))
    × (read 10 0 ds ≡ 5)
    × IsNumeral 10 ds
vsprintf-decimal_example =
    vsprintf-decimal (97 ∷ []) 6 0xffff_fffb ((λ e. omega arith), tt) (omega arith) (omega arith)
