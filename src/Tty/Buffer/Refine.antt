-- ===== src/Tty/Buffer/Refine.antt =====
-- The circular buffer of kernel/modules/tty/kbd.c behaves as the queue of the bytes it holds.
use mathlib.Core.List.{tail}
use omocha_os.Base.{
  ℕ, zero, suc, ◌+◌, ◌-◌, ◌%◌, ◌<◌, ◌≡◌, ◌≢◌, refl, ◌∙◌, sym, ap, ap₂, Option, none, some, List, [],
  ◌∷◌, ◌++◌, length, get_or, set, get_or-set_self, get_or-set_ne, leb, arith, ℕ_discrete,
  Bool-cases, Option-cases, inl, inr,
}
use omocha_os.Tty.Buffer.Queue
use omocha_os.Tty.Buffer.Queue.{Event, key, fetch}
use omocha_os.Tty.Buffer.{
  Buffer, advance, take_byte, put_byte, read_circular_buffer, write_circular_buffer, run,
}
use omocha_os.Tty.Buffer.Valid.{IsValid, write-IsValid, read-IsValid}

-- The `n` bytes from offset `h` on, going round at the end of the array.
unfoldable pub window : List ℕ → ℕ → ℕ → List ℕ
window buf h zero = []
window buf h (suc n) = get_or buf h 0 ∷ window buf (advance h) n

unfoldable pub contents : Buffer → List ℕ
contents b = window b.buf b.tail b.count

pub length-window : (buf : List ℕ) (h n : ℕ) → length (window buf h n) ≡ n
unfolding window
length-window buf h zero = refl
length-window buf h (suc n) = ap suc (length-window buf (advance h) n)

-- Writing just behind a window adds the byte to it.
window-set :
    (buf : List ℕ) (x h n i : ℕ)
    → length buf ≡ 256
    → h < 256
    → n < 256
    → i ≡ (h + n) % 256
    → window (set buf i x) h (suc n) ≡ window buf h n ++ (x ∷ [])
unfolding window
window-set buf x h zero i len hh hn e =
    let here : i ≡ h = omega arith in rw (here, get_or-set_self buf h x 0 (omega arith))
window-set buf x h (suc n) i len hh hn e =
    ap₂ ◌∷◌ (get_or-set_ne buf i h x 0 (omega arith))
      (window-set buf x (advance h) n i len (ground arith) (omega arith) (ground arith))

window-tail :
    (buf : List ℕ) (h n : ℕ) → 0 < n → window buf (advance h) (n - 1) ≡ tail (window buf h n)
unfolding window
window-tail buf h zero p = absurd (omega arith)
window-tail buf h (suc n) p = ap (window buf (advance h)) (omega arith)

window-nil : (buf : List ℕ) (h n : ℕ) → n ≡ 0 → window buf h n ≡ []
unfolding window
window-nil buf h zero e = refl
window-nil buf h (suc n) e = absurd (omega arith)

window-cons :
    (buf : List ℕ) (h n : ℕ)
    → n ≢ 0
    → window buf h n ≡ get_or buf h 0 ∷ window buf (advance h) (n - 1)
unfolding window
window-cons buf h zero ne = absurd (ne refl)
window-cons buf h (suc n) ne = ap (λ k. window buf h (suc k)) (omega arith)

pub length-contents : (b : Buffer) → length (contents b) ≡ b.count
unfolding contents
length-contents b = length-window b.buf b.tail b.count

module _ {b : Buffer} (v : IsValid b) where
  contents-put : (c : ℕ) → b.count < 256 → contents (put_byte b c) ≡ contents b ++ (c ∷ [])
  unfolding contents
  contents-put c h =
      ap (window (set b.buf b.head c) b.tail) (omega arith)
      ∙ window-set b.buf c b.tail b.count b.head v.storage v.tail_in h v.gap

  take-IsValid : 0 < b.count → IsValid (take_byte b).1
  unfolding take_byte
  take-IsValid h = ground arith

  contents-take : 0 < b.count → contents (take_byte b).1 ≡ tail (contents b)
  unfolding take_byte contents
  contents-take h = window-tail b.buf b.tail b.count h

-- A write to a valid buffer enqueues its byte in the queue that drops its oldest byte at 256.
pub write_refines :
    {b : Buffer} (c : ℕ)
    → IsValid b
    → contents (write_circular_buffer b c) ≡ Queue.enqueue 256 (contents b) c
unfolding write_circular_buffer Queue.enqueue
write_refines {b} c v = elim (Bool-cases (leb 256 b.count)) [
  | inl e ↦
      let some_byte : 0 < b.count = ground arith in
      rw (length-contents b, e, ← contents-take v some_byte)
        (contents-put (take-IsValid v some_byte) c (ground (arith, v.count_in)))
  | inr e ↦ rw (length-contents b, e) (contents-put v c (ground arith))
]

-- What a read gives: the oldest byte and the rest, or a wait where there is none.
abbrev pub dequeued : Option (ℕ × Buffer) → Option (ℕ × List ℕ)
dequeued none = none
dequeued (some (c, b)) = some (c, contents b)

pub read_refines : (b : Buffer) → dequeued (read_circular_buffer b) ≡ Queue.dequeue (contents b)
unfolding read_circular_buffer Queue.dequeue take_byte contents
read_refines b = elim (ℕ_discrete b.count 0) [
  | yes e ↦ ground (arith, window-nil b.buf b.tail b.count e)
  | no ne ↦ ground (arith, window-cons b.buf b.tail b.count ne)
]

-- No sequence of keys and reads tells a valid buffer from the queue of its contents.
pub run_refines :
    (es : List Event) {b : Buffer} → IsValid b → run es b ≡ Queue.run 256 es (contents b)
unfolding run Queue.run
run_refines [] v = refl
run_refines (key c ∷ es) {b} v =
    run_refines es (write-IsValid c v) ∙ ap (Queue.run 256 es) (write_refines c v)
run_refines (fetch ∷ es) {b} v = elim (Option-cases (read_circular_buffer b)) [
  | inl wait ↦
      let waits : Queue.dequeue (contents b) ≡ none = sym (read_refines b) ∙ ap dequeued wait in
      ground (arith, wait, waits, run_refines es v)
  | inr (r, got) ↦
      let gives : Queue.dequeue (contents b) ≡ some (r.0, contents r.1) =
        sym (read_refines b) ∙ ap dequeued got in
      ground (arith, got, gives, run_refines es (read-IsValid v got))
]
