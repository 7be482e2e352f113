-- ===== src/Tty/Keyboard/Letters.antt =====
-- The letter keys in `kbd_read` of kernel/modules/tty/kbd.c.
use omocha_os.Base.{
  ℕ, zero, suc, ◌+◌, ◌-◌, ◌*◌, ◌%◌, ◌≤◌, ◌<◌, ◌≡◌, refl, ap, ◌∙◌, Bool, true, false, not, ◌&&◌,
  ◌||◌, some, leb, ◌==◌, if◌then◌else◌, arith, ℕ_discrete,
}
use omocha_os.Base.Flags.{has, has-eq-bit}
use omocha_os.Tty.Buffer.{Buffer, take_byte, read_circular_buffer}
use omocha_os.Tty.Keymap.{keymap}
use omocha_os.Tty.Keyboard.{
  Switches, Keyboard, scan, key_of, switch_key, with_flags, translate, kbd_read,
}
use omocha_os.Tty.Keyboard.Modifiers.{bit-small, Flagged, with_flags-Flagged, with_flags-low}

-- The second column of the letters among the first `n` rows is their capital.
capitals : ℕ → Bool
capitals zero = true
capitals (suc n) =
    let plain = keymap (n * 3) in
    capitals n && (not (leb 97 plain && leb plain 122) || (keymap (n * 3 + 1) + 32 == plain))

capitals-all : capitals 128 ≡ true
unfolding capitals keymap
capitals-all = refl

capital_of :
    (n c : ℕ)
    → capitals n ≡ true
    → c < n
    → 97 ≤ keymap (c * 3)
    → keymap (c * 3) ≤ 122
    → keymap (c * 3 + 1) + 32 ≡ keymap (c * 3)
unfolding capitals
capital_of zero c all h low high = absurd (omega arith)
capital_of (suc n) c all h low high = elim (ℕ_discrete c n) [
  | yes last ↦
      let row : c * 3 ≡ n * 3 = omega arith in
      ground (arith, row, ap keymap row, ap keymap {x = c * 3 + 1} {y = n * 3 + 1} (omega arith))
  | no other ↦ capital_of n c (ground arith) (omega arith) low high
]

-- Shift and Caps Lock undo each other.
abbrev pub is_capital : Switches → Bool
is_capital sw = if sw.caps_lock then not (sw.shift_l || sw.shift_r) else (sw.shift_l || sw.shift_r)

key_of-letter :
    (sw : Switches) (c l : ℕ)
    → c < 128
    → keymap (c * 3) ≡ l
    → 97 ≤ l
    → l ≤ 122
    → key_of sw c false ≡ (if is_capital sw then l - 32 else l)
unfolding key_of
key_of-letter sw c l h e low high =
    let row : c % 128 * 3 ≡ c * 3 = omega arith in
    let second = capital_of 128 c capitals-all h (omega arith) (omega arith) in
    let two : keymap (c * 3 + 1) ≡ l - 32 = omega (arith, second) in
    rw row (rw e (rw two (ground arith)))

abbrev letter : Switches → ℕ → ℕ
letter sw l = if is_capital sw then l - 32 else l

switch_key-none : (k : Keyboard) (key : ℕ) (make : Bool) → key < 0x108 → switch_key k key make ≡ k
unfolding switch_key
switch_key-none k key make h = ground arith

make_code : (c : ℕ) → c < 128 → has c 0x80 ≡ false
make_code c h = has-eq-bit c 7 ∙ ground (arith, bit-small c 7 h)

translate-letter :
    (k : Keyboard) (make : Bool) (c l : ℕ)
    → c < 128
    → keymap (c * 3) ≡ l
    → 97 ≤ l
    → l ≤ 122
    → translate k (record { code = c; key = 0; make = make; e0 = false })
      ≡ (with_flags k.switches (letter k.switches l), k)
unfolding translate
translate-letter k make c l h e low high =
    let key = key_of-letter k.switches c l h e low high in
    let same = switch_key-none k (letter k.switches l) true (ground arith) in
    rw key (rw (make_code c h) (rw same refl))

scan_plain :
    (make : Bool) (b : Buffer)
    → 0 < b.count
    → (take_byte b).0 < 128
    → scan make b
      ≡ some (record { code = (take_byte b).0; key = 0; make = make; e0 = false }, (take_byte b).1)
unfolding scan read_circular_buffer
scan_plain make b some_byte h = ground arith

-- Where the oldest byte in the keyboard's buffer is the scan code of a letter `l`, whatever is held
-- on the stack, `kbd_read` takes this byte only, leaves switches and lights alone, and gives a key
-- whose low 9 bits are the letter, as a capital when exactly one of Shift and Caps Lock is on, and
-- whose flags for the six modifiers say which of them are held.
pub kbd_read-letter :
    (make : Bool) (k : Keyboard) (l : ℕ)
    → 0 < k.buffer.count
    → (take_byte k.buffer).0 < 128
    → keymap ((take_byte k.buffer).0 * 3) ≡ l
    → 97 ≤ l
    → l ≤ 122
    → (r : ℕ) × (kbd_read make k ≡ some (r, record k { buffer = (take_byte k.buffer).1 }))
      × (r % 512 ≡ (if is_capital k.switches then l - 32 else l))
      × Flagged k.switches r
unfolding kbd_read
kbd_read-letter make k l some_byte h e low high =
    let c = (take_byte k.buffer).0 in
    let k1 : Keyboard = record k { buffer = (take_byte k.buffer).1 } in
    let small : letter k.switches l < 512 = ground arith in
    let first = scan_plain make k.buffer some_byte h in
    let second = translate-letter k1 make c l h e low high in
    (
      with_flags k.switches (letter k.switches l),
      rw first (rw second (ground arith)),
      with_flags-low k.switches (letter k.switches l) small,
      with_flags-Flagged k.switches (letter k.switches l) small,
    )
