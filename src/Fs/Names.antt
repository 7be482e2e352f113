-- ===== src/Fs/Names.antt =====
-- 8.3 names: kernel/modules/fs/fs.c. A name is the list of its bytes, without the NUL.
use omocha_os.Base.{
  ℕ, zero, suc, ◌+◌, ◌-◌, ◌*◌, ◌/◌, ◌%◌, ◌==◌, ◌&&◌, Option, none, some, List, [], ◌∷◌, ◌++◌, map,
  get_or, take, replicate, length, ltb, leb, if◌then◌else◌,
}

unfoldable pub char_upper : ℕ → ℕ
char_upper c = if leb 97 c && leb c 122 then c - 32 else c

-- One round of `checksum_fname`: the sum is rotated to the right, then the byte is added.
unfoldable pub checksum_fname : List ℕ → (checksum : ℕ) → ℕ
checksum_fname [] checksum = checksum
checksum_fname (c ∷ cs) checksum =
    checksum_fname cs ((checksum % 2 * 128 + checksum / 2 % 128 + c) % 256)

-- The index of the last dot among the first `n` bytes.
unfoldable pub dot_index : List ℕ → ℕ → Option ℕ
dot_index fname zero = none
dot_index fname (suc n) =
    let rest = dot_index fname n in if get_or fname n 0 == 46 then some n else rest

-- Byte `i` behind the dot.
abbrev pub ext_byte : List ℕ → (dot i : ℕ) → ℕ
ext_byte fname dot i =
    let c_index = dot + 1 + i in
    if leb (length fname) c_index then 32 else char_upper (get_or fname c_index 0)

unfoldable pub extension : List ℕ → Option ℕ → List ℕ
extension fname none = 32 ∷ 32 ∷ 32 ∷ []
extension fname (some dot) = ext_byte fname dot 0 ∷ ext_byte fname dot 1 ∷ ext_byte fname dot 2 ∷ []

-- The first 8 bytes: a part of more than 8 is cut to 6, with `~1` behind it.
unfoldable pub first_part : List ℕ → (firstpart_len : ℕ) → List ℕ
first_part fname n =
    if ltb 8 n
    then map char_upper (take 6 fname) ++ (126 ∷ 49 ∷ [])
    else map char_upper (take n fname) ++ replicate (8 - n) 32

abbrev pub part_length : List ℕ → Option ℕ → ℕ
part_length fname none = length fname
part_length fname (some dot) = dot

unfoldable pub write_8_3_filename : List ℕ → List ℕ
unfolding dot_index extension first_part
write_8_3_filename fname =
    let dot = dot_index fname (length fname) in
    first_part fname (part_length fname dot) ++ extension fname dot
