-- ===== src/Tty/Keyboard/Pause.antt =====
-- The Pause key in `kbd_read` of kernel/modules/tty/kbd.c.
use omocha_os.Base.{◌-◌, ◌≤◌, ◌<◌, ◌≡◌, ◌≢◌, refl, Bool, false, some, arith}
use omocha_os.Base.Flags.{has}
use omocha_os.Tty.Buffer.{Buffer, take_byte, read_circular_buffer}
use omocha_os.Tty.Keymap.{keymap}
use omocha_os.Tty.Keyboard.{
  Switches, Keyboard, Scan, scan, scan_pause, match_bytes, pausebrk_scode, key_of, switch_key,
  translate, kbd_read,
}

abbrev nothing : Bool → Scan
nothing make = record { code = 0xE1; key = 0; make = make; e0 = false }

match_bytes-other :
    (b : Buffer)
    → 0 < b.count
    → (take_byte b).0 ≢ 0xE1
    → match_bytes pausebrk_scode b ≡ some (false, (take_byte b).1)
unfolding match_bytes read_circular_buffer
match_bytes-other b some_byte n = ground arith

scan-pause :
    (make : Bool) (b : Buffer)
    → 0 < b.count
    → (take_byte b).0 ≡ 0xE1
    → scan make b ≡ scan_pause make (take_byte b).1
unfolding scan read_circular_buffer
scan-pause make b some_byte e = ground (arith, e)

scan_pause-other :
    (make : Bool) (b : Buffer)
    → 0 < b.count
    → (take_byte b).0 ≢ 0xE1
    → scan_pause make b ≡ some (nothing make, (take_byte b).1)
unfolding scan_pause
scan_pause-other make b some_byte n = rw (match_bytes-other b some_byte n) refl

no_key : (sw : Switches) → key_of sw 0xE1 false ≡ 0
unfolding key_of keymap
no_key sw = ground arith

translate-nothing : (k : Keyboard) (make : Bool) → translate k (nothing make) ≡ (0, k)
unfolding translate switch_key has
translate-nothing k make = rw (no_key k.switches) refl

take_byte-count : (b : Buffer) → (take_byte b).1.count ≡ b.count - 1
unfolding take_byte
take_byte-count b = refl

-- Where the oldest byte in the keyboard's buffer is 0xE1, with which the code of Pause starts, and
-- the next one is another byte, as it is 0x1D in this code, `kbd_read` gives no key: it expects 0xE1
-- a second time, drops both bytes and leaves the rest of the code in the buffer.
kbd_read-pausebreak :
    (make : Bool) (k : Keyboard)
    → 2 ≤ k.buffer.count
    → (take_byte k.buffer).0 ≡ 0xE1
    → (take_byte (take_byte k.buffer).1).0 ≢ 0xE1
    → kbd_read make k ≡ some (0, record k { buffer = (take_byte (take_byte k.buffer).1).1 })
unfolding kbd_read
kbd_read-pausebreak make k two e n =
    let b1 = (take_byte k.buffer).1 in
    let first = scan-pause make k.buffer (omega arith) e in
    let second = scan_pause-other make b1 (omega (arith, take_byte-count k.buffer)) n in
    let third = translate-nothing (record k { buffer = (take_byte b1).1 }) make in
    rw first (rw second (rw third (ground arith)))
