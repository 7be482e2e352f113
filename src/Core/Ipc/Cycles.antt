-- ===== src/Core/Ipc/Cycles.antt =====
-- `__send_msg` of kernel/core/syscall_impl.c and cycles of waiting senders.
use omocha_os.Base.{
  ℕ, suc, ◌+◌, ◌<◌, ◌≡◌, ◌≢◌, sym, ◌∙◌, ap, subst, length, Bool, true, false, ◌||◌, List, ◌==◌,
  if◌then◌else◌, arith, ℕ_discrete, Bool-cases, ◌⊎◌, inl, inr, ◌↔◌,
}
use omocha_os.Core.Run.{Kernel, Run, ok, halted}
use omocha_os.Core.Ipc.{p_msg_pa, is_sending, target, is_dead_lock, is_ready, post}
use omocha_os.Core.Ipc.Deadlock.{Leads, last, step, Acyclic, is_dead_lock_lem}
use omocha_os.Core.Ipc.Queue.{mem, Waits}
use omocha_os.Core.Ipc.Send.{pa, stamped, dest, Suspended, post-suspend}

-- In a build with `__DEBUG__` a send that would close a cycle of waiting processes halts the
-- machine: the process written to waits, through a chain of senders, for the pid of the sender.
-- Before the send no process waits for itself, and the fuel exceeds the rank of that process.
pub post-halts :
    (fuel : ℕ) (k : Kernel) (sender msg : ℕ) (rank : ℕ → ℕ)
    → Acyclic (stamped k sender msg) rank
    → rank (dest k sender msg) < fuel
    → Leads (stamped k sender msg) (k.procs sender).pid (dest k sender msg)
    → post true fuel k sender msg ≡ halted
unfolding post
post-halts fuel k sender msg rank a h l =
    let (b, e, decides) =
      is_dead_lock_lem (stamped k sender msg) rank (k.procs sender).pid fuel (dest k sender msg) a
        h in
    let found : b ≡ true = decides.1 l in ground (arith, e, found)

verdict : Run Bool → Bool
verdict (ok b) = b
verdict r = false

module _ (k : Kernel) (rank : ℕ → ℕ) (a : Acyclic k rank) (sender : ℕ) where
  -- Whether `p` is the sender or waits for it.
  below : ℕ → Bool
  unfolding verdict
  below p = (p == sender) || verdict (is_dead_lock (suc (rank p)) k sender p)

  below_iff : (p : ℕ) → p ≢ sender → (below p ≡ true) ↔ Leads k sender p
  unfolding below
  below_iff p ne =
      let (b, e, decides) = is_dead_lock_lem k rank sender (suc (rank p)) p a (omega arith) in
      let same : below p ≡ b = ground (arith, e) in
      (λ h. decides.0 (sym same ∙ h), λ l. same ∙ decides.1 l)

  below-step :
      (p : ℕ) → p ≢ sender → is_sending k p ≡ true → below (target k p) ≡ true → below p ≡ true
  below-step p ne s h = elim (ℕ_discrete (target k p) sender) [
    | yes e ↦ (below_iff p ne).1 (last s e)
    | no n ↦ (below_iff p ne).1 (step s ((below_iff (target k p) n).0 h))
  ]

  below_self : below sender ≡ true
  unfolding below
  below_self = ground arith

-- The ranks after `sender` has stopped for `receiver`: it and all that wait for it move above the
-- receiver.
module _ (k k' : Kernel) (rank : ℕ → ℕ) (a : Acyclic k rank) (sender receiver : ℕ) where
  raised : ℕ → ℕ
  raised p = if below k rank a sender p then rank p + (rank receiver + 1) else rank p

  raised-falls :
      receiver ≢ sender
      → ¬ (Leads k sender receiver)
      → target k' sender ≡ receiver
      → ((p : ℕ) → p ≢ sender → (target k' p ≡ target k p) × (is_sending k' p ≡ is_sending k p))
      → (p : ℕ) → is_sending k' p ≡ true
      → raised (target k' p) < raised p
  unfolding raised
  raised-falls ne free to same p sends = elim (ℕ_discrete p sender) [
    | yes e ↦
        let low : below k rank a sender receiver ≡ false =
          elim (Bool-cases (below k rank a sender receiver)) [
            | inl b ↦ absurd (free ((below_iff k rank a sender receiver ne).0 b))
            | inr b ↦ b
          ] in
        ground (arith, to, low, below_self k rank a sender)
    | no n ↦
        let before : is_sending k p ≡ true = sym (same p n).1 ∙ sends in
        ground (arith, same p n, a.falls p before, below-step k rank a sender p n before)
  ]

target-suspend :
    (k k' : Kernel) (sender receiver msg : ℕ) (xs : List ℕ)
    → Suspended k sender receiver msg xs k'
    → (target k' sender ≡ (k.messages (pa k sender msg)).receiver)
      × ((p : ℕ) → p ≢ sender → (target k' p ≡ target k p) × (is_sending k' p ≡ is_sending k p))
unfolding target p_msg_pa
target-suspend k k' sender receiver msg xs s = (
  ground (arith, s.messages, s.words, s.message, s.spaces sender),
  λ p n.
      (ground (arith, s.messages, s.words, s.others p n, s.spaces p), ground (arith, s.others p n)),
)

suspend-Acyclic :
    (k k' : Kernel) (rank : ℕ → ℕ) (sender msg : ℕ) (xs : List ℕ)
    → Acyclic (stamped k sender msg) rank
    → dest k sender msg ≢ sender
    → ¬ (Leads (stamped k sender msg) sender (dest k sender msg))
    → Suspended (stamped k sender msg) sender (dest k sender msg) msg xs k'
    → (rank' : ℕ → ℕ) × Acyclic k' rank'
suspend-Acyclic k k' rank sender msg xs a ne free s =
    let before = stamped k sender msg in
    let receiver = dest k sender msg in
    let (to, same) = target-suspend before k' sender receiver msg xs s in
    (
      raised before k' rank a sender receiver,
      record {
        falls = raised-falls before k' rank a sender receiver ne free (ground (arith, to)) same;
      },
    )

-- In a build with `__DEBUG__`, where no process waits for itself, a send to another process that is
-- not ready halts the machine where a chain of senders leads from the receiver back to the sender;
-- without such a chain it succeeds, the sender has stopped and is now sending to the receiver, and
-- again no process waits for itself. The sender has its index as its pid, its message is mapped, it
-- is not in the queue of the receiver, and the fuel exceeds the length of that queue and the rank of
-- the receiver.
pub post-Acyclic :
    (fuel : ℕ) (k : Kernel) (rank : ℕ → ℕ) (sender msg : ℕ) (xs : List ℕ)
    → Acyclic (stamped k sender msg) rank
    → (k.procs sender).pid ≡ sender
    → pa k sender msg ≢ 0
    → dest k sender msg ≢ sender
    → is_ready (stamped k sender msg) sender (dest k sender msg) ≡ false
    → Waits k.procs (k.procs (dest k sender msg)).quene_head xs
    → mem sender xs ≡ false
    → rank (dest k sender msg) < fuel
    → length xs < fuel
    → (Leads (stamped k sender msg) sender (dest k sender msg)
        × (post true fuel k sender msg ≡ halted))
      ⊎ ((¬ (Leads (stamped k sender msg) sender (dest k sender msg)))
          × ((k' : Kernel) × (post true fuel k sender msg ≡ ok (k', true))
              × (is_sending k' sender ≡ true)
              × (target k' sender ≡ dest k sender msg)
              × (rank' : ℕ → ℕ) × Acyclic k' rank'))
post-Acyclic fuel k rank sender msg xs a own mapped ne busy w new low room =
    let receiver = dest k sender msg in
    let before = stamped k sender msg in
    let (b, e, decides) = is_dead_lock_lem before rank sender fuel receiver a low in
    elim (Bool-cases b) [
      | inl chain ↦
          let leads = decides.0 chain in
          inl (
            leads,
            post-halts fuel k sender msg rank a low
                (subst (λ pid. Leads before pid receiver) (sym own) leads),
          )
      | inr none ↦
          let free : ¬ (Leads before sender receiver) = λ l. absurd (cc (decides.1 l, none)) in
          let checked : is_dead_lock fuel before (k.procs sender).pid receiver ≡ ok false =
            subst (λ pid. is_dead_lock fuel before pid receiver ≡ ok false) (sym own)
              (e ∙ ap ok none) in
          let other : receiver ≢ (k.procs sender).pid = rw own ne in
          let (k', sent, left) =
            post-suspend k sender msg true fuel mapped checked other xs busy w new room in
          let (to, same) = target-suspend before k' sender receiver msg xs left in
          let (rank', b') = suspend-Acyclic k k' rank sender msg xs a ne free left in
          inr (free, (k', sent, left.stopped, ground (arith, to), rank', b'))
    ]
