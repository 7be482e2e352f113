-- ===== src/Bitset/Tests.antt =====
-- Runs of kernel/header/lib/bitset.h on small arrays, and the theorems at them.
use omocha_os.Base.{ℕ, ◌<◌, ◌≡◌, refl, List, [], ◌∷◌, arith}
use omocha_os.Base.Flags.{has, raise, lower}
use omocha_os.Bitset.{set_bit, clear_bit, check_bit, bsf, find_first_unset_bit}
use omocha_os.Bitset.Search.{find_first-taken}

abbrev two_words : List ℕ
two_words = 0x17 ∷ 0 ∷ []

set_runs : set_bit two_words 35 ≡ 0x17 ∷ 8 ∷ []
unfolding set_bit raise
set_runs = refl

clear_runs : clear_bit two_words 2 ≡ 0x13 ∷ 0 ∷ []
unfolding clear_bit lower
clear_runs = refl

search_runs : find_first_unset_bit two_words ≡ 3
unfolding find_first_unset_bit bsf has
search_runs = refl

-- Bit 32 is free, and the search names bit 0.
search_second_word : find_first_unset_bit (0xffff_ffff ∷ 0 ∷ []) ≡ 0
unfolding find_first_unset_bit bsf has
search_second_word = refl

abbrev first_full : List ℕ
first_full = 0xffff_ffff ∷ 0 ∷ []

find_first-taken_example :
    let arr = first_full in let r = find_first_unset_bit arr in (r < 32) × (check_bit arr r ≡ 1)
find_first-taken_example = find_first-taken 0 (omega arith) 0 [] (omega arith)
