-- ===== src/Core/Ipc/Receive/Fetch.antt =====
-- `__recv_msg` of kernel/core/syscall_impl.c where a message of another process waits.
use omocha_os.Base.{ℕ, ◌<◌, ◌≡◌, ◌≢◌, subst, Bool, true, false, List, ◌∷◌, ◌++◌, length, arith}
use omocha_os.Base.Flags.{has}
use omocha_os.Core.Process.{Process, running, proc_any}
use omocha_os.Core.Run.{assert-true, Kernel, ok}
use omocha_os.Core.Ipc.{p_msg_pa, is_sending, target, set_head}
use omocha_os.Core.Ipc.Send.{wake_lem}
use omocha_os.Core.Ipc.Queue.{Waits, Waits-frame, SameButQueues}
use omocha_os.Core.Ipc.Receive.{collect, fetch_sent}
use omocha_os.Core.Ipc.Receive.Unlink.{unlink_lem}

-- What a fetch of the message of `s` by `receiver` into `pa` leaves, where `xs` wait on.
pub record Fetched (k : Kernel) (receiver pa s : ℕ) (xs : List ℕ) (k' : Kernel) : Type 0 where
  pub message : k'.messages pa ≡ k.messages (p_msg_pa k s)
  pub elsewhere : (a : ℕ) → a ≢ pa → k'.messages a ≡ k.messages a
  pub queue : Waits k'.procs (k'.procs receiver).quene_head xs
  pub woken : is_sending k' s ≡ false
  pub runs : has (k'.procs s).status running ≡ true
  pub others : (p : ℕ) → p ≢ s → (k'.procs p).status ≡ (k.procs p).status

-- A table that differs from the kernel's in queues only, and holds the queue `xs`.
collect-Fetched :
    (k : Kernel) (procs : ℕ → Process) (receiver pa s : ℕ) (xs : List ℕ)
    → Waits procs (procs receiver).quene_head xs
    → SameButQueues k.procs procs
    → Fetched k receiver pa s xs (collect (record k { procs = procs }) s pa)
unfolding collect p_msg_pa
collect-Fetched k procs receiver pa s xs w same =
    let k' = collect (record k { procs = procs }) s pa in
    record {
      message = ground (arith, same s);
      elsewhere = λ a n. ground arith;
      queue =
          subst (λ h. Waits k'.procs h xs) (ground arith)
            (Waits-frame xs procs k'.procs (procs receiver).quene_head w (λ x m. ground arith));
      woken = ground (arith, wake_lem (procs s).status 6 (omega arith) (omega arith));
      runs = ground (arith, wake_lem (procs s).status 6 (omega arith) (omega arith));
      others = λ p n. ground (arith, same p);
    }

module _ (debug : Bool) (fuel : ℕ) (k : Kernel) (receiver pa msg : ℕ) where
  -- A receiver that takes a message from any process gets that of the sender which has waited
  -- longest, in a queue of distinct processes whose first is marked as sending. That sender runs
  -- again, and the others wait on in their order.
  pub fetch_any :
      (s : ℕ) (xs : List ℕ)
      → Waits k.procs (k.procs receiver).quene_head (s ∷ xs)
      → is_sending k s ≡ true
      → (k' : Kernel) × (fetch_sent debug fuel k receiver pa msg proc_any ≡ ok (k', false))
        × Fetched k receiver pa s xs k'
  unfolding fetch_sent
  fetch_any s xs w sends =
      let procs = set_head k.procs receiver (k.procs s).quene_body in
      let queue : Waits procs (procs receiver).quene_head xs =
        subst (λ h. Waits procs h xs) (ground arith)
          (Waits-frame xs k.procs procs (k.procs s).quene_body w.2 (λ x m. ground arith)) in
      let same : SameButQueues k.procs procs =
        λ p. (ground arith, ground arith, ground arith, ground arith) in
      (
        collect (record k { procs = procs }) s pa,
        ground (arith, w.0, sends, same s, assert-true debug),
        collect-Fetched k procs receiver pa s xs queue same,
      )

  -- A receiver that asks for the message of one sender gets it, wherever that sender stands in the
  -- queue; the others wait on in their order. The queue holds distinct processes, the sender is
  -- marked as sending to this receiver with a mapped message, its number is not PROC_ANY, and the
  -- fuel exceeds the number of senders before it.
  pub fetch_from :
      (s : ℕ) (xs ys : List ℕ)
      → s ≢ proc_any
      → Waits k.procs (k.procs receiver).quene_head (xs ++ (s ∷ ys))
      → length xs < fuel
      → p_msg_pa k s ≢ 0
      → is_sending k s ≡ true
      → target k s ≡ (k.procs receiver).pid
      → (k' : Kernel) × (fetch_sent debug fuel k receiver pa msg s ≡ ok (k', false))
        × Fetched k receiver pa s (xs ++ ys) k'
  unfolding fetch_sent
  fetch_from s xs ys ne w h buffer sends to =
      let (procs, done, queue, same) = unlink_lem debug fuel k.procs receiver s xs ys w h in
      (
        collect (record k { procs = procs }) s pa,
        ground (arith, done, sends, to, same s, assert-true debug),
        collect-Fetched k procs receiver pa s (xs ++ ys) queue same,
      )
