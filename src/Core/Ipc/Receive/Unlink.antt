-- ===== src/Core/Ipc/Receive/Unlink.antt =====
-- Taking one sender out of the queue in `__recv_msg` of kernel/core/syscall_impl.c.
use omocha_os.Base.{
  ℕ, zero, suc, ◌<◌, ◌≡◌, ◌≢◌, sym, ◌∙◌, subst, Bool, true, false, none, some, List, [], ◌∷◌, ◌++◌,
  length, arith,
}
use omocha_os.Core.Process.{Process}
use omocha_os.Core.Run.{assert-true, ok}
use omocha_os.Core.Ipc.{set_head, set_body, is_some}
use omocha_os.Core.Ipc.Queue.{mem, Waits, Waits-frame, SameButQueues, mem-append, mem-final, final}
use omocha_os.Core.Ipc.Receive.{find_prev, unlink}

module _ (procs : ℕ → Process) (s : ℕ) (ys : List ℕ) where
  find_prev-final :
      (xs : List ℕ) (x : ℕ) (fuel : ℕ)
      → Waits procs (procs x).quene_body (xs ++ (s ∷ ys))
      → length xs < fuel
      → find_prev fuel procs x (procs x).quene_body s ≡ ok (some (final x xs))
  unfolding find_prev
  find_prev-final xs x zero w h = absurd (omega arith)
  find_prev-final [] x (suc fuel) w h = ground (arith, w.0)
  find_prev-final (y ∷ xs) x (suc fuel) w h =
      ground
        (arith, w.0, w.1, mem-append y xs (s ∷ ys), find_prev-final xs y fuel w.2 (omega arith))

  -- The queue behind `x` without `s`, once the entry before `s` leads past it.
  Waits-skip :
      (procs' : ℕ → Process) (xs : List ℕ) (x : ℕ)
      → mem x (xs ++ (s ∷ ys)) ≡ false
      → Waits procs (procs x).quene_body (xs ++ (s ∷ ys))
      → (procs' (final x xs)).quene_body ≡ (procs s).quene_body
      → ((y : ℕ) → y ≢ final x xs → y ≢ s → (procs' y).quene_body ≡ (procs y).quene_body)
      → Waits procs' (procs' x).quene_body (xs ++ ys)
  Waits-skip procs' [] x nx w f same =
      subst (λ h. Waits procs' h ys) (sym f)
        (Waits-frame ys procs procs' (procs s).quene_body w.2
          (λ y m. same y (ground arith) (ground (arith, w.1))))
  Waits-skip procs' (y ∷ xs) x nx w f same = (
    same x (λ e. ground (arith, mem-final y xs, mem-append x (y ∷ xs) (s ∷ ys)))
          (ground (arith, mem-append x xs (s ∷ ys)))
        ∙ w.0,
    ground (arith, w.1, mem-append y xs (s ∷ ys), mem-append y xs ys),
    Waits-skip procs' xs y w.1 w.2 f same,
  )

has_next :
    (procs : ℕ → Process) (x : ℕ) (xs : List ℕ) (s : ℕ) (ys : List ℕ)
    → Waits procs (procs x).quene_body (xs ++ (s ∷ ys))
    → is_some (procs x).quene_body ≡ true
has_next procs x [] s ys w = rw w.0
has_next procs x (y ∷ xs) s ys w = rw w.0

final-ne :
    (procs : ℕ → Process) (s : ℕ) (ys xs : List ℕ) (x : ℕ)
    → mem x (xs ++ (s ∷ ys)) ≡ false
    → Waits procs (procs x).quene_body (xs ++ (s ∷ ys))
    → final x xs ≢ s
final-ne procs s ys [] x nx w = ground arith
final-ne procs s ys (y ∷ xs) x nx w = final-ne procs s ys xs y w.1 w.2

-- `sender` leaves the queue, and the others keep their order.
pub unlink_lem :
    (debug : Bool) (fuel : ℕ) (procs : ℕ → Process) (receiver sender : ℕ) (xs ys : List ℕ)
    → Waits procs (procs receiver).quene_head (xs ++ (sender ∷ ys))
    → length xs < fuel
    → (procs' : ℕ → Process) × (unlink debug fuel procs receiver sender ≡ ok procs')
      × Waits procs' (procs' receiver).quene_head (xs ++ ys)
      × SameButQueues procs procs'
unfolding unlink
unlink_lem debug fuel procs receiver sender [] ys w h =
    let procs' = set_body (set_head procs receiver (procs sender).quene_body) sender none in
    (
      procs',
      ground (arith, w.0),
      subst (λ h. Waits procs' h ys) (ground arith)
          (Waits-frame ys procs procs' (procs sender).quene_body w.2 (λ y m. ground (arith, w.1))),
      λ p. (ground arith, ground arith, ground arith, ground arith),
    )
unlink_lem debug fuel procs receiver sender (x ∷ xs) ys w h =
    let prev = final x xs in
    let procs' = set_body (set_body procs prev (procs sender).quene_body) sender none in
    let found = find_prev-final procs sender ys xs x fuel w.2 (omega arith) in
    let behind : is_some (procs x).quene_body ≡ true = has_next procs x xs sender ys w.2 in
    (
      procs',
      ground (arith, w.0, w.1, found, behind, assert-true debug, mem-append x xs (sender ∷ ys)),
      (
        ground (arith, w.0),
        ground (arith, w.1, mem-append x xs (sender ∷ ys), mem-append x xs ys),
        Waits-skip procs sender ys procs' xs x w.1 w.2
            (ground (
              arith,
              mem-final x xs,
              mem-append (final x xs) (x ∷ xs) (sender ∷ ys),
              final-ne procs sender ys xs x w.1 w.2,
            ))
            (λ y n m. ground arith),
      ),
      λ p. (ground arith, ground arith, ground arith, ground arith),
    )
