-- ===== src/Core/Ipc/Tests.antt =====
-- The theorems of message passing and of the scheduler at a machine of four processes.
use omocha_os.Base.{
  ℕ, ◌≡◌, ◌↔◌, ◌⊎◌, refl, Bool, true, false, Option, none, some, [], ◌∷◌, ◌==◌, if◌then◌else◌,
  arith,
}
use omocha_os.Base.Flags.{has}
use omocha_os.Core.Process.{Process, Message, update, proc_any}
use omocha_os.Core.Paging.{vir2phy}
use omocha_os.Core.Run.{Kernel, ok, halted}
use omocha_os.Core.Scheduler.{is_unrunable, run_on, scheduler}
use omocha_os.Core.Scheduler.Ring.{scheduler_round}
use omocha_os.Core.Ipc.{p_msg_pa, is_sending, target, is_dead_lock, is_ready, post}
use omocha_os.Core.Ipc.Deadlock.{Leads, last, Acyclic, is_dead_lock_lem}
use omocha_os.Core.Ipc.Send.{stamped, dest, Suspended, post-suspend}
use omocha_os.Core.Ipc.Cycles.{post-halts, post-Acyclic}
use omocha_os.Core.Ipc.Receive.{fetch_sent}
use omocha_os.Core.Ipc.Receive.Fetch.{Fetched, fetch_any, fetch_from}

abbrev message_to : ℕ → Message
message_to r = record {
  sender = proc_any;
  receiver = r;
  ready = 1;
  type = 4;
  major = 9;
  d1 = 0;
  d2 = 0;
  d3 = 0;
  d4 = 0;
}

abbrev process : (pid status p_msg : ℕ) (head body next : Option ℕ) → Process
process pid status p_msg head body next = record {
  cs = 0;
  ds = 0;
  es = 0;
  fs = 0;
  gs = 0;
  ss = 0;
  eip = 0;
  esp = 0;
  eflags = 0x1202;
  page_dir = 0x1000;
  status = status;
  pid = pid;
  parent_pid = 1;
  name = [];
  pstack = 0;
  pstack_size = 0;
  exit_status = 0;
  p_msg = p_msg;
  quene_head = head;
  quene_body = body;
  next = next;
  prog_info = 0;
}

-- Every directory entry maps 4 MB from 0: `0x81` is present and extended. Process 2 waits for any
-- message in its buffer at 0x200; 3 and then 1 wait for 0 to fetch what they send. Process 0 runs.
abbrev machine : Kernel
machine = record {
  procs = λ p.
      if p == 0
      then process 0 1 0x100 (some 3) none (some 1)
      else if p == 1
      then process 1 0x41 0x101 none none (some 2)
      else if p == 2
      then process 2 0x80 0x200 none none (some 3)
      else process p 0x41 0x103 none (some 1) none;
  messages =
      λ a. if a == 0x300 then message_to 2 else if a == 0x301 then message_to 3 else message_to 0;
  words = λ a. 0x81;
  proc_list = some 0;
  proc_running = some 0;
  interrupt_data =
      record { avail = 0; info = 0 }
      ∷ record { avail = 1; info = 0 }
      ∷ record { avail = 1; info = 0 }
      ∷ [];
  exception_data = [];
}

-- An interrupt is pending for process 0.
abbrev interrupted : Kernel → Kernel
interrupted k = record k { procs = update k.procs 0 (record (k.procs 0) { status = 5 }) }

-- Senders stand above process 0.
abbrev rank : ℕ → ℕ
rank p = p

machine-Acyclic : Acyclic machine rank
unfolding target p_msg_pa vir2phy has
machine-Acyclic = record { falls = λ p h. ground arith }

-- Process 0 sends the message at 0x300 to process 2.
deliver_runs : is_ready (stamped machine 0 0x300) 0 2 ≡ true
unfolding is_ready p_msg_pa vir2phy has
deliver_runs = refl

-- Process 2 sends the message at 0x301 to process 3, which is sending itself.
post-suspend_example :
    (k' : Kernel) × (post true 9 machine 2 0x301 ≡ ok (k', true))
    × Suspended (stamped machine 2 0x301) 2 3 0x301 [] k'
unfolding is_ready is_dead_lock target p_msg_pa vir2phy has
post-suspend_example =
    post-suspend machine 2 0x301 true 9 (omega arith) refl (omega arith) [] refl refl refl
      (omega arith)

is_dead_lock_lem_example :
    (b : Bool) × (is_dead_lock 4 machine 0 3 ≡ ok b) × ((b ≡ true) ↔ Leads machine 0 3)
is_dead_lock_lem_example = is_dead_lock_lem machine rank 0 4 3 machine-Acyclic (omega arith)

-- The message at 0x301 would go from process 0 to process 3, which waits for process 0.
post-halts_example : post true 9 machine 0 0x301 ≡ halted
unfolding target p_msg_pa vir2phy has
post-halts_example =
    post-halts 9 machine 0 0x301 rank (record { falls = λ p h. ground arith }) (omega arith)
      (last refl refl)

post-Acyclic_example :
    (Leads (stamped machine 2 0x301) 2 (dest machine 2 0x301)
      × (post true 9 machine 2 0x301 ≡ halted))
    ⊎ ((¬ (Leads (stamped machine 2 0x301) 2 (dest machine 2 0x301)))
        × ((k' : Kernel) × (post true 9 machine 2 0x301 ≡ ok (k', true))
            × (is_sending k' 2 ≡ true)
            × (target k' 2 ≡ dest machine 2 0x301)
            × (rank' : ℕ → ℕ) × Acyclic k' rank'))
unfolding target p_msg_pa vir2phy has is_ready
post-Acyclic_example =
    post-Acyclic 9 machine rank 2 0x301 [] (record { falls = λ p h. ground arith }) refl
      (omega arith) (omega arith) refl refl refl (omega arith) (omega arith)

fetch_any_example :
    (k' : Kernel) × (fetch_sent true 9 machine 0 0x200 0x200 proc_any ≡ ok (k', false))
    × Fetched machine 0 0x200 3 (1 ∷ []) k'
unfolding has
fetch_any_example =
    fetch_any true 9 machine 0 0x200 0x200 3 (1 ∷ []) (refl, refl, (refl, refl, refl)) refl

fetch_from_example :
    (k' : Kernel) × (fetch_sent true 9 machine 0 0x200 0x200 1 ≡ ok (k', false))
    × Fetched machine 0 0x200 1 (3 ∷ []) k'
unfolding target p_msg_pa vir2phy has
fetch_from_example =
    fetch_from true 9 machine 0 0x200 0x200 1 (3 ∷ []) [] (omega arith)
      (refl, refl, (refl, refl, refl)) (omega arith) (omega arith) refl refl

-- Behind process 0 in the list stand 1, which is sending, 2, which waits for a message, and 3.
abbrev ready_three : Kernel
ready_three = record machine {
  procs = λ p. if p == 3 then process 3 1 0 none none none else machine.procs p;
}

scheduler_round_example : scheduler (λ k. k) 5 ready_three ≡ ok (run_on ready_three 3)
unfolding is_unrunable
scheduler_round_example =
    scheduler_round (λ k. k) ready_three 0 5 [] (1 ∷ 2 ∷ 3 ∷ []) (1 ∷ 2 ∷ []) [] 3
      (refl, (refl, (refl, (refl, refl)))) refl refl (omega arith, refl, (omega arith, refl, tt))
      (omega arith) refl (omega arith)
