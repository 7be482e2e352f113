-- ===== src/Core/Ipc/Queue.antt =====
-- The queue of senders that wait for a process: a list linked through `quene_body`.
use omocha_os.Base.{
  ℕ, zero, suc, ◌<◌, ◌≡◌, ◌≢◌, refl, sym, subst, ◌∙◌, Bool, true, false, ◌||◌, Option, none, some,
  List, [], ◌∷◌, ◌++◌, length, ◌==◌, arith,
}
use omocha_os.Core.Process.{Process}
use omocha_os.Core.Run.{ok}
use omocha_os.Core.Ipc.{last_of, append_sender, set_head, set_body}

abbrev pub mem : ℕ → List ℕ → Bool
mem a [] = false
mem a (x ∷ xs) = (a == x) || mem a xs

-- From `head` the senders are the distinct `xs`, in order.
abbrev pub Waits : (ℕ → Process) → Option ℕ → List ℕ → Type 0
Waits procs head [] = head ≡ none
Waits procs head (x ∷ xs) =
    (head ≡ some x) × (mem x xs ≡ false) × Waits procs (procs x).quene_body xs

-- A table that agrees on the `quene_body` of the senders holds the same queue.
pub Waits-frame :
    (xs : List ℕ) (procs procs' : ℕ → Process) (head : Option ℕ)
    → Waits procs head xs
    → ((x : ℕ) → mem x xs ≡ true → (procs' x).quene_body ≡ (procs x).quene_body)
    → Waits procs' head xs
Waits-frame [] procs procs' head w same = w
Waits-frame (x ∷ xs) procs procs' head w same = (
  w.0,
  w.1,
  subst (λ h. Waits procs' h xs) (sym (same x (ground arith)))
      (Waits-frame xs procs procs' (procs x).quene_body w.2 (λ y m. same y (ground arith))),
)

pub mem-append : (a : ℕ) (xs ys : List ℕ) → mem a (xs ++ ys) ≡ (mem a xs || mem a ys)
mem-append a [] ys = refl
mem-append a (x ∷ xs) ys = ground (arith, mem-append a xs ys)

-- The last of `x` and the senders behind it.
abbrev pub final : ℕ → List ℕ → ℕ
final x [] = x
final x (y ∷ ys) = final y ys

pub mem-final : (x : ℕ) (xs : List ℕ) → mem (final x xs) (x ∷ xs) ≡ true
mem-final x [] = ground arith
mem-final x (y ∷ xs) = ground (arith, mem-final y xs)

last_of-final :
    (xs : List ℕ) (x : ℕ) (procs : ℕ → Process) (fuel : ℕ)
    → Waits procs (procs x).quene_body xs
    → length xs < fuel
    → last_of fuel procs x ≡ ok (final x xs)
unfolding last_of
last_of-final xs x procs zero w h = absurd (omega arith)
last_of-final [] x procs (suc fuel) w h = ground arith
last_of-final (y ∷ xs) x procs (suc fuel) w h =
    ground (arith, last_of-final xs y procs fuel w.2 (omega arith))

module _ (procs procs' : ℕ → Process) (s : ℕ) (ends : (procs' s).quene_body ≡ none) where
  -- The queue behind `x`, once its last entry leads to `s`.
  Waits-snoc :
      (xs : List ℕ) (x : ℕ)
      → mem x xs ≡ false
      → Waits procs (procs x).quene_body xs
      → mem s (x ∷ xs) ≡ false
      → (procs' (final x xs)).quene_body ≡ some s
      → ((y : ℕ) → y ≢ final x xs → y ≢ s → (procs' y).quene_body ≡ (procs y).quene_body)
      → Waits procs' (procs' x).quene_body (xs ++ (s ∷ []))
  Waits-snoc [] x nx w ns f same = (f, refl, ends)
  Waits-snoc (y ∷ xs) x nx w ns f same = (
    same x (λ e. ground (arith, mem-final y xs)) (ground arith) ∙ w.0,
    ground (arith, mem-append y xs (s ∷ [])),
    Waits-snoc xs y w.1 w.2 (ground arith) f same,
  )

-- The two tables differ in queues only.
abbrev pub SameButQueues : (ℕ → Process) → (ℕ → Process) → Type 0
SameButQueues procs procs' =
    (p : ℕ)
    → ((procs' p).status ≡ (procs p).status)
      × ((procs' p).p_msg ≡ (procs p).p_msg)
      × ((procs' p).page_dir ≡ (procs p).page_dir)
      × ((procs' p).pid ≡ (procs p).pid)

-- The queue of `receiver` grows by `sender` at its end.
pub append_sender-Waits :
    (xs : List ℕ) (fuel : ℕ) (procs : ℕ → Process) (receiver sender : ℕ)
    → Waits procs (procs receiver).quene_head xs
    → mem sender xs ≡ false
    → length xs < fuel
    → (procs' : ℕ → Process) × (append_sender fuel procs receiver sender ≡ ok procs')
      × Waits procs' (procs' receiver).quene_head (xs ++ (sender ∷ []))
      × SameButQueues procs procs'
unfolding append_sender
append_sender-Waits [] fuel procs receiver sender w ns h = (
  set_body (set_head procs receiver (some sender)) sender none,
  ground (arith, w),
  (ground arith, refl, ground arith),
  λ p. (ground arith, ground arith, ground arith, ground arith),
)
append_sender-Waits (x ∷ xs) fuel procs receiver sender w ns h =
    let linked = set_body procs (final x xs) (some sender) in
    let procs' = set_body linked sender none in
    (
      procs',
      ground (arith, last_of-final xs x procs fuel w.2 (omega arith)),
      (
        ground (arith, w.0),
        ground (arith, mem-append x xs (sender ∷ [])),
        Waits-snoc procs procs' sender (ground arith) xs x w.1 w.2 ns
            (ground (arith, mem-final x xs)) (λ y n m. ground arith),
      ),
      λ p. (ground arith, ground arith, ground arith, ground arith),
    )
