-- ===== src/Core/Ipc/Send.antt =====
-- `__send_msg` of kernel/core/syscall_impl.c: delivery, suspension and the check for a deadlock.
use omocha_os.Base.{
  ℕ, ◌^◌, ◌<◌, ◌≡◌, ◌≢◌, refl, sym, subst, Bool, true, false, List, [], ◌∷◌, ◌++◌, length, arith,
}
use omocha_os.Base.Flags.{has, raise, lower, has-raise, has-lower, raise-zero}
use omocha_os.Core.Process.{update, running, normal, sending, receving}
use omocha_os.Core.Paging.{vir2phy}
use omocha_os.Core.Run.{Kernel, ok, assert-true}
use omocha_os.Core.Ipc.{
  p_msg_pa, is_sending, is_dead_lock, set_message, is_ready, wake, deliver, suspend, post,
}
use omocha_os.Core.Ipc.Queue.{mem, Waits, Waits-frame, append_sender-Waits}

-- A woken process has left its wait and runs.
pub wake_lem :
    (status k : ℕ)
    → 0 < k
    → k < 32
    → (has (wake status (2 ^ k)) (2 ^ k) ≡ false) × (has (wake status (2 ^ k)) running ≡ true)
wake_lem status k pos h =
    let left = lower status (2 ^ k) in
    rw (raise-zero left) (
      ground (arith, has-raise left 0 k, has-lower status k k h h),
      ground (arith, has-raise left 0 0),
    )

-- What a suspended sender leaves behind.
pub record Suspended (k : Kernel) (sender receiver msg : ℕ) (xs : List ℕ) (k' : Kernel)
    : Type 0 where
  pub queue : Waits k'.procs (k'.procs receiver).quene_head (xs ++ (sender ∷ []))
  pub stopped : is_sending k' sender ≡ true
  pub message : (k'.procs sender).p_msg ≡ msg
  pub messages : k'.messages ≡ k.messages
  pub others :
      (p : ℕ)
      → p ≢ sender
      → ((k'.procs p).status ≡ (k.procs p).status) × ((k'.procs p).p_msg ≡ (k.procs p).p_msg)
  pub spaces : (p : ℕ) → (k'.procs p).page_dir ≡ (k.procs p).page_dir
  pub words : k'.words ≡ k.words

suspend_lem :
    (fuel : ℕ) (k : Kernel) (sender receiver msg : ℕ) (xs : List ℕ)
    → Waits k.procs (k.procs receiver).quene_head xs
    → mem sender xs ≡ false
    → length xs < fuel
    → (k' : Kernel) × (suspend fuel k sender receiver msg ≡ ok k')
      × Suspended k sender receiver msg xs k'
unfolding suspend
suspend_lem fuel k sender receiver msg xs w ns h =
    let p = k.procs sender in
    let stopped = record p { p_msg = msg; status = raise (lower p.status normal) sending } in
    let procs = update k.procs sender stopped in
    let head : (procs receiver).quene_head ≡ (k.procs receiver).quene_head = ground arith in
    let before : Waits procs (procs receiver).quene_head xs =
      subst (λ h. Waits procs h xs) (sym head)
        (Waits-frame xs k.procs procs (k.procs receiver).quene_head w (λ x m. ground arith)) in
    let (procs', done, queue, same) =
      append_sender-Waits xs fuel procs receiver sender before ns h in
    (
      record k { procs = procs' },
      ground (arith, done),
      record {
        queue = queue;
        stopped = ground (arith, same sender, has-raise (lower (k.procs sender).status normal) 6 6);
        message = ground (arith, same sender);
        messages = refl;
        others = λ p ne. (ground (arith, same p), ground (arith, same p));
        spaces = λ p. ground (arith, same p);
        words = refl;
      },
    )

module _ (k : Kernel) (sender msg : ℕ) where
  -- The physical address of the message, the state in which it names its sender, and its receiver.
  abbrev pub pa : ℕ
  pa = vir2phy k.words (k.procs sender).page_dir msg

  abbrev pub stamped : Kernel
  stamped = set_message k pa (record (k.messages pa) { sender = (k.procs sender).pid })

  abbrev pub dest : ℕ
  dest = (k.messages pa).receiver

  module _ (debug : Bool) (fuel : ℕ) (mapped : pa ≢ 0)
      (free : is_dead_lock fuel stamped (k.procs sender).pid dest ≡ ok false)
      (other : dest ≢ (k.procs sender).pid) where
    -- A receiver that waits for the sender or for any process gets the message, with the pid of
    -- its sender, and runs again; the sender goes on, and no other process changes. Both messages
    -- are mapped, the check for a deadlock finds none, and the receiver is not the sender.
    post-deliver :
        is_ready stamped sender dest ≡ true
        → p_msg_pa k dest ≢ 0
        → (k' : Kernel) × (post debug fuel k sender msg ≡ ok (k', false))
          × (k'.messages (p_msg_pa k dest)
              ≡ record (k.messages pa) { sender = (k.procs sender).pid; ready = 0 })
          × (has (k'.procs dest).status receving ≡ false)
          × (has (k'.procs dest).status running ≡ true)
          × ((p : ℕ) → p ≢ dest → k'.procs p ≡ k.procs p)
    unfolding post deliver p_msg_pa
    post-deliver ready buffer = (
      deliver stamped dest pa,
      ground (arith, free, ready, assert-true debug),
      ground arith,
      ground (arith, wake_lem (k.procs dest).status 7 (omega arith) (omega arith)),
      ground (arith, wake_lem (k.procs dest).status 7 (omega arith) (omega arith)),
      λ p ne. ground arith,
    )

    -- Where the receiver is not ready, the sender stops behind the senders that wait for it. The
    -- message is mapped, the check for a deadlock finds none, the receiver is not the sender, the
    -- queue holds distinct processes without the sender, and the fuel exceeds its length.
    pub post-suspend :
        (xs : List ℕ)
        → is_ready stamped sender dest ≡ false
        → Waits k.procs (k.procs dest).quene_head xs
        → mem sender xs ≡ false
        → length xs < fuel
        → (k' : Kernel) × (post debug fuel k sender msg ≡ ok (k', true))
          × Suspended stamped sender dest msg xs k'
    unfolding post
    post-suspend xs busy w ns h =
        let (k', done, left) = suspend_lem fuel stamped sender dest msg xs w ns h in
        (k', ground (arith, free, busy, assert-true debug, done), left)
