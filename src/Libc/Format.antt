-- ===== src/Libc/Format.antt =====
-- `vsprintf` of kernel/lib/stdlib.c. Formats and texts are lists of bytes without the NUL; texts
-- fit in the buffer of 1024 bytes that the code has for one directive.
use omocha_os.Base.{
  ℕ, zero, suc, ◌+◌, ◌-◌, ◌*◌, ◌%◌, ◌^◌, ◌<◌, ◌≡◌, ◌≢◌, refl, ap, ◌∙◌, ◌&&◌, ◌||◌, List, [], ◌∷◌,
  ◌++◌, append-nil, length, replicate, leb, ◌==◌, if◌then◌else◌, arith,
}
use omocha_os.Core.Run.{Run, ok, fault, out_of_fuel, ◌>>=◌}
use omocha_os.Libc.Itoa.{itoa, read, IsNumeral, read-itoa}

-- What four bytes of the argument list hold: a word, or a pointer to a text.
pub data Arg : Type 0 where
  number : ℕ → Arg
  text : List ℕ → Arg

-- `%d`
unfoldable pub decimal : ℕ → (w : ℕ) → Run (List ℕ)
decimal fuel w =
    if leb (2 ^ 31) w then (do ds ← itoa fuel (2 ^ 32 - w) 10; ok (45 ∷ ds)) else itoa fuel w 10

unfoldable pub word_text : ℕ → (c w : ℕ) → Run (List ℕ)
unfolding decimal
word_text fuel c w =
    if c == 99
    then ok (if w % 256 == 0 then [] else w % 256 ∷ [])
    else if c == 120
    then itoa fuel w 16
    else decimal fuel w

-- The text of a directive `c` and the arguments behind it. `fault`: an argument of another kind, or
-- none, is read.
unfoldable pub conversion : ℕ → (c : ℕ) → List Arg → Run (List ℕ × List Arg)
unfolding word_text
conversion fuel c [] =
    if (c == 99) || ((c == 120) || ((c == 100) || (c == 115))) then fault else ok ([], [])
conversion fuel c (number w ∷ args) =
    if (c == 99) || ((c == 120) || (c == 100))
    then (do t ← word_text fuel c w; ok (t, args))
    else if c == 115
    then fault
    else ok ([], number w ∷ args)
conversion fuel c (text s ∷ args) =
    if c == 115
    then ok (s, args)
    else if (c == 99) || ((c == 120) || (c == 100))
    then fault
    else ok ([], text s ∷ args)

-- The number at the front.
unfoldable pub width : (align : ℕ) → List ℕ → ℕ × List ℕ
width align [] = (align, [])
width align (c ∷ fmt) =
    let rest = width (align * 10 + (c - 48)) fmt in
    if leb 48 c && leb c 57 then rest else (align, c ∷ fmt)

unfoldable pub padded : (cs align : ℕ) → List ℕ → List ℕ
padded cs align t = replicate (align - length t) cs ++ t

-- What stands behind `%`: its text, the rest of the format and the other arguments. `fault`: the
-- format ends within the directive, and the code reads on behind its NUL.
unfoldable pub directive : ℕ → (fmt : List ℕ) → List Arg → Run (List ℕ × List ℕ × List Arg)
unfolding width padded
directive fuel [] args = fault
directive fuel (c ∷ fmt) args =
    let cs = if c == 48 then 48 else 32 in
    let (align, rest) = width 0 (if c == 48 then fmt else c ∷ fmt) in
    let printed : Run (List ℕ × List ℕ × List Arg) = elim rest [
      | [] ↦ fault
      | f ∷ behind ↦ (do
        (t, others) ← conversion fuel f args
        ok (padded cs align t, behind, others))
    ] in
    if c == 37 then ok (37 ∷ [], fmt, args) else printed

-- One round for each byte or directive of the format, and one for its end.
unfoldable pub vsprintf : (rounds fuel : ℕ) → (fmt : List ℕ) → List Arg → Run (List ℕ)
unfolding directive
vsprintf zero fuel fmt args = out_of_fuel
vsprintf (suc n) fuel [] args = ok []
vsprintf (suc n) fuel (c ∷ fmt) args =
    let plain = (do out ← vsprintf n fuel fmt args; ok (c ∷ out)) in
    let formatted = (do
      (t, rest, others) ← directive fuel fmt args
      out ← vsprintf n fuel rest others
      ok (t ++ out)) in
    if c == 37 then formatted else plain

-- No byte is `%`.
abbrev pub IsPlain : List ℕ → Type 0
IsPlain [] = Unit
IsPlain (c ∷ s) = (c ≢ 37) × IsPlain s

decimal-read :
    (fuel w : ℕ)
    → w < 2 ^ 32
    → (if leb (2 ^ 31) w then 2 ^ 32 - w else w) < fuel
    → (ds : List ℕ) × (decimal fuel w ≡ ok ((if leb (2 ^ 31) w then 45 ∷ [] else []) ++ ds))
      × (read 10 0 ds ≡ (if leb (2 ^ 31) w then 2 ^ 32 - w else w))
      × IsNumeral 10 ds
unfolding decimal
decimal-read fuel w h f =
    let size = if leb (2 ^ 31) w then 2 ^ 32 - w else w in
    let (ds, done, same, numeral) = read-itoa fuel size 10 (omega arith) (omega arith) f in
    (ds, ground (arith, done), same, numeral)

directive-decimal :
    (fuel w : ℕ) (rest t : List ℕ) (args : List Arg)
    → decimal fuel w ≡ ok t
    → directive fuel (100 ∷ rest) (number w ∷ args) ≡ ok (t, rest, args)
unfolding directive width padded conversion word_text
directive-decimal fuel w rest t args e = rw e (ground arith)

vsprintf-directive :
    (n fuel : ℕ) (fmt t rest : List ℕ) (args others : List Arg)
    → directive fuel fmt args ≡ ok (t, rest, others)
    → vsprintf (suc n) fuel (37 ∷ fmt) args ≡ (vsprintf n fuel rest others >>= λ out. ok (t ++ out))
unfolding vsprintf
vsprintf-directive n fuel fmt t rest args others e = rw e (ground arith)

vsprintf-byte :
    (n fuel c : ℕ) (fmt out : List ℕ) (args : List Arg)
    → c ≢ 37
    → vsprintf n fuel fmt args ≡ ok out
    → vsprintf (suc n) fuel (c ∷ fmt) args ≡ ok (c ∷ out)
unfolding vsprintf
vsprintf-byte n fuel c fmt out args plain e = rw e (ground (arith, plain))

vsprintf-plain :
    (pre : List ℕ) (m n fuel : ℕ) (fmt out : List ℕ) (args : List Arg)
    → IsPlain pre
    → m ≡ length pre + n
    → vsprintf n fuel fmt args ≡ ok out
    → vsprintf m fuel (pre ++ fmt) args ≡ ok (pre ++ out)
vsprintf-plain [] m n fuel fmt out args plain h e =
    ap (λ (k : ℕ). vsprintf k fuel fmt args) {x = m} {y = n} (omega arith) ∙ e
vsprintf-plain (c ∷ pre) zero n fuel fmt out args plain h e = absurd (omega arith)
vsprintf-plain (c ∷ pre) (suc m) n fuel fmt out args plain h e =
    vsprintf-byte m fuel c (pre ++ fmt) (pre ++ out) args plain.0
      (vsprintf-plain pre m n fuel fmt out args plain.1 (omega arith) e)

-- A format of bytes other than `%` with `%d` behind them, and a 32-bit word as the argument, with a
-- round for each byte, the directive and the end, and fuel above the size of the number that the
-- word stands for as a signed number: the text is that of the bytes, a minus sign where the number
-- is negative, and a numeral that reads as its size: one decimal digit or more, of which the first
-- is a 0 only where there is no other.
pub vsprintf-decimal :
    (pre : List ℕ) (fuel w : ℕ)
    → IsPlain pre
    → w < 2 ^ 32
    → (if leb (2 ^ 31) w then 2 ^ 32 - w else w) < fuel
    → (ds : List ℕ) × (vsprintf (length pre + 2) fuel (pre ++ (37 ∷ 100 ∷ [])) (number w ∷ [])
        ≡ ok (pre ++ ((if leb (2 ^ 31) w then 45 ∷ [] else []) ++ ds)))
      × (read 10 0 ds ≡ (if leb (2 ^ 31) w then 2 ^ 32 - w else w))
      × IsNumeral 10 ds
vsprintf-decimal pre fuel w plain h f =
    let (ds, done, same, numeral) = decimal-read fuel w h f in
    let t = (if leb (2 ^ 31) w then 45 ∷ [] else []) ++ ds in
    let last : vsprintf 2 fuel (37 ∷ 100 ∷ []) (number w ∷ []) ≡ ok t =
      vsprintf-directive 1 fuel (100 ∷ []) t [] (number w ∷ []) []
        (directive-decimal fuel w [] t [] done)
      ∙ end t in
    (
      ds,
      vsprintf-plain pre (length pre + 2) 2 fuel (37 ∷ 100 ∷ []) t (number w ∷ []) plain refl last,
      same,
      numeral,
    )
  where
    end : (t : List ℕ) → (vsprintf 1 fuel [] [] >>= λ out. ok (t ++ out)) ≡ ok t
    end t = unfold vsprintf in ap ok (append-nil t)
