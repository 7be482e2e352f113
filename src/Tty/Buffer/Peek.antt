-- ===== src/Tty/Buffer/Peek.antt =====
-- `peek_circular_buffer` of kernel/modules/tty/kbd.c.
use omocha_os.Base.{ℕ, zero, suc, ◌+◌, ◌≤◌, ◌<◌, ◌≡◌, ◌∙◌, ap, some, List, get_or, arith}
use omocha_os.Tty.Buffer.{Buffer, size, advance, peek_offset, peek_circular_buffer}
use omocha_os.Tty.Buffer.Valid.{IsValid}
use omocha_os.Tty.Buffer.Refine.{window, contents}

get_or-window :
    (buf : List ℕ) (h n k : ℕ)
    → k < n
    → h + n ≤ 256
    → get_or (window buf h n) k 0 ≡ get_or buf (h + k) 0
unfolding window
get_or-window buf h zero k p q = absurd (omega arith)
get_or-window buf h (suc n) zero p q = ap (λ i. get_or buf i 0) (omega arith)
get_or-window buf h (suc n) (suc k) p q =
    get_or-window buf (advance h) n k (omega arith) (ground arith)
    ∙ ap (λ i. get_or buf i 0) (ground arith)

-- Where the queue of a valid buffer does not go round the end of the array, a peek below the count
-- gives the byte at that place of the queue.
pub peek-contents :
    (outside : ℕ → ℕ) {b : Buffer} (k : ℕ)
    → IsValid b
    → k < b.count
    → b.tail + b.count ≤ size
    → peek_circular_buffer outside b k ≡ some (get_or (contents b) k 0)
unfolding peek_circular_buffer contents
peek-contents outside {b} k v h p = ground (arith, get_or-window b.buf b.tail b.count k)

-- Where the byte at place `k` of the queue of a valid buffer, below the count, lies behind the end
-- of the array, the peek reads at an offset from `buf` outside the array: 256 plus the tail is
-- subtracted instead of 256 less the tail.
peek_outside :
    (outside : ℕ → ℕ) {b : Buffer} (k : ℕ)
    → IsValid b
    → k < b.count
    → size ≤ b.tail + k
    → (size ≤ peek_offset b k)
      × (peek_circular_buffer outside b k ≡ some (outside (peek_offset b k)))
unfolding peek_circular_buffer
peek_outside outside {b} k v h p = ground arith
