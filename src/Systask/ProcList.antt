-- ===== src/Systask/ProcList.antt =====
-- The process list that kernel/modules/systask/systask.c extends and cuts.
use omocha_os.Base.{
  ℕ, zero, suc, ◌<◌, ◌≡◌, ◌≢◌, refl, sym, subst, ◌∙◌, true, false, Option, none, some, List, [],
  ◌∷◌, ◌++◌, length, arith,
}
use omocha_os.Core.Process.{Process, update}
use omocha_os.Core.Run.{Kernel, ok}
use omocha_os.Core.Ipc.Queue.{mem, mem-append, mem-final, final}
use omocha_os.Systask.Processes.{set_next, last_proc, link_proc, find_before, unlink_proc}

-- From `head` the `next` pointers lead through the distinct `xs` to NULL.
abbrev pub Listed : (ℕ → Process) → Option ℕ → List ℕ → Type 0
Listed procs head [] = head ≡ none
Listed procs head (x ∷ xs) = (head ≡ some x) × (mem x xs ≡ false) × Listed procs (procs x).next xs

pub Listed-frame :
    (xs : List ℕ) (procs procs' : ℕ → Process) (head : Option ℕ)
    → Listed procs head xs
    → ((x : ℕ) → mem x xs ≡ true → (procs' x).next ≡ (procs x).next)
    → Listed procs' head xs
Listed-frame [] procs procs' head w same = w
Listed-frame (x ∷ xs) procs procs' head w same = (
  w.0,
  w.1,
  subst (λ h. Listed procs' h xs) (sym (same x (ground arith)))
      (Listed-frame xs procs procs' (procs x).next w.2 (λ y m. same y (ground arith))),
)

pub last_proc-final :
    (xs : List ℕ) (x : ℕ) (procs : ℕ → Process) (fuel : ℕ)
    → Listed procs (procs x).next xs
    → length xs < fuel
    → last_proc fuel procs x ≡ ok (final x xs)
unfolding last_proc
last_proc-final xs x procs zero w h = absurd (omega arith)
last_proc-final [] x procs (suc fuel) w h = ground arith
last_proc-final (y ∷ xs) x procs (suc fuel) w h =
    ground (arith, last_proc-final xs y procs fuel w.2 (omega arith))

pub Listed-snoc :
    (procs procs' : ℕ → Process) (p : ℕ) (ends : (procs' p).next ≡ none) (xs : List ℕ) (x : ℕ)
    → mem x xs ≡ false
    → Listed procs (procs x).next xs
    → mem p (x ∷ xs) ≡ false
    → (procs' (final x xs)).next ≡ some p
    → ((y : ℕ) → y ≢ final x xs → y ≢ p → (procs' y).next ≡ (procs y).next)
    → Listed procs' (procs' x).next (xs ++ (p ∷ []))
Listed-snoc procs procs' p ends [] x nx w np f same = (f, refl, ends)
Listed-snoc procs procs' p ends (y ∷ xs) x nx w np f same = (
  same x (λ e. ground (arith, mem-final y xs)) (ground arith) ∙ w.0,
  ground (arith, mem-append y xs (p ∷ [])),
  Listed-snoc procs procs' p ends xs y w.1 w.2 (ground arith) f same,
)

-- Everything but the links of the list is as before.
abbrev pub SameButNext : (ℕ → Process) → (ℕ → Process) → Type 0
SameButNext procs procs' = (p : ℕ) → procs' p ≡ record (procs p) { next = (procs' p).next }

-- The list grows by `p` at its end.
pub link_proc-Listed :
    (xs : List ℕ) (fuel : ℕ) (k : Kernel) (p : ℕ)
    → Listed k.procs k.proc_list xs
    → mem p xs ≡ false
    → length xs < fuel
    → (k' : Kernel) × (link_proc fuel k p ≡ ok k')
      × Listed k'.procs k'.proc_list (xs ++ (p ∷ []))
      × SameButNext k.procs k'.procs
unfolding link_proc
link_proc-Listed [] fuel k p w np h = (
  record k { proc_list = some p; procs = set_next k.procs p none },
  ground (arith, w),
  (refl, refl, ground arith),
  λ q. ground arith,
)
link_proc-Listed (x ∷ xs) fuel k p w np h =
    let procs' = set_next (set_next k.procs (final x xs) (some p)) p none in
    (
      record k { procs = procs' },
      ground (arith, w.0, last_proc-final xs x k.procs fuel w.2 (omega arith)),
      (
        w.0,
        ground (arith, mem-append x xs (p ∷ [])),
        Listed-snoc k.procs procs' p (ground arith) xs x w.1 w.2 np (ground (arith, mem-final x xs))
            (λ y n m. ground arith),
      ),
      λ q. ground arith,
    )

module _ (procs : ℕ → Process) (p : ℕ) (ys : List ℕ) where
  find_before-final :
      (xs : List ℕ) (x : ℕ) (fuel : ℕ)
      → Listed procs (procs x).next (xs ++ (p ∷ ys))
      → length xs < fuel
      → find_before fuel procs x p ≡ ok (some (final x xs))
  unfolding find_before
  find_before-final xs x zero w h = absurd (omega arith)
  find_before-final [] x (suc fuel) w h = ground (arith, w.0)
  find_before-final (y ∷ xs) x (suc fuel) w h =
      ground
        (arith, w.0, w.1, mem-append y xs (p ∷ ys), find_before-final xs y fuel w.2 (omega arith))

  final-ne :
      (xs : List ℕ) (x : ℕ)
      → mem x (xs ++ (p ∷ ys)) ≡ false
      → Listed procs (procs x).next (xs ++ (p ∷ ys))
      → final x xs ≢ p
  final-ne [] x nx w = ground arith
  final-ne (y ∷ xs) x nx w = final-ne xs y w.1 w.2

  Listed-skip :
      (procs' : ℕ → Process) (xs : List ℕ) (x : ℕ)
      → mem x (xs ++ (p ∷ ys)) ≡ false
      → Listed procs (procs x).next (xs ++ (p ∷ ys))
      → (procs' (final x xs)).next ≡ (procs p).next
      → ((y : ℕ) → y ≢ final x xs → y ≢ p → (procs' y).next ≡ (procs y).next)
      → Listed procs' (procs' x).next (xs ++ ys)
  Listed-skip procs' [] x nx w f same =
      subst (λ h. Listed procs' h ys) (sym f)
        (Listed-frame ys procs procs' (procs p).next w.2
          (λ y m. same y (ground arith) (ground (arith, w.1))))
  Listed-skip procs' (y ∷ xs) x nx w f same = (
    same x (λ e. ground (arith, mem-final y xs, mem-append x (y ∷ xs) (p ∷ ys)))
          (ground (arith, mem-append x xs (p ∷ ys)))
        ∙ w.0,
    ground (arith, w.1, mem-append y xs (p ∷ ys), mem-append y xs ys),
    Listed-skip procs' xs y w.1 w.2 f same,
  )

-- A process that is not the head leaves the list, and its slot may then be cleared.
pub unlink_proc-Listed :
    (xs ys : List ℕ) (x fuel : ℕ) (k : Kernel) (p : ℕ) (cleared : Process)
    → Listed k.procs k.proc_list (x ∷ (xs ++ (p ∷ ys)))
    → length xs < fuel
    → (k' : Kernel) × (unlink_proc fuel k p ≡ ok k')
      × Listed (update k'.procs p cleared) k'.proc_list (x ∷ (xs ++ ys))
      × ((q : ℕ) → (k'.procs q).parent_pid ≡ (k.procs q).parent_pid)
unfolding unlink_proc
unlink_proc-Listed xs ys x fuel k p cleared w h =
    let procs' = set_next k.procs (final x xs) (k.procs p).next in
    let found = find_before-final k.procs p ys xs x fuel w.2 h in
    (
      record k { procs = procs' },
      ground (arith, w.0, w.1, found, mem-append x xs (p ∷ ys)),
      (
        w.0,
        ground (arith, w.1, mem-append x xs (p ∷ ys), mem-append x xs ys),
        Listed-skip k.procs p ys (update procs' p cleared) xs x w.1 w.2
            (ground (arith, final-ne k.procs p ys xs x w.1 w.2)) (λ y n m. ground arith),
      ),
      λ q. ground arith,
    )
