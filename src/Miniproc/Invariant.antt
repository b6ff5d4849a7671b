-- ===== src/Miniproc/Invariant.antt =====
-- What holds of the process table between two interrupts, and that each of them keeps it.
use code_snippet.Prelude.{
  ℕ, zero, suc, ◌+◌, ◌≤◌, ◌<◌, ◌≡◌, refl, inl, inr, true, ◌==◌, arith, Bool-cases, if_both, none,
  some, for_range, Option, ◌%◌,
}
use code_snippet.Miniproc.Machine.{
  Kernel, Process, Registers, Outcome, empty, is_runnable, is_zombie, set_proc, nprocs, final,
}
use code_snippet.Miniproc.Fork.{
  empty_from, empty_slot, copy_stack, fork_into, do_fork, thread_into, do_newthread,
}
use code_snippet.Miniproc.Schedule.{schedule, schedule_loop}
use code_snippet.Miniproc.Interrupt.{
  eax, save, sys_getpid, sys_fork, wake_one, wake_waiters, killed, kill_refused, kill_target,
  sys_kill, sys_thread, sys_exit, wait_on, sys_wait, dispatch, interrupt,
}

pub record IsValid (k : Kernel) : Type 0 where
  pub pids : (i : ℕ) → i < nprocs → (k.proc_array i).p_pid ≡ i
  pub reserved : (k.proc_array 0).p_state ≡ empty
  pub current_pos : 0 < k.current
  pub current_in : k.current < nprocs

-- A store into a descriptor other than the first, which leaves its process ID alone.
pub set_proc-IsValid :
    {k : Kernel} (i : ℕ) (p : Process)
    → IsValid k
    → 0 < i
    → p.p_pid ≡ (k.proc_array i).p_pid
    → IsValid (set_proc i p k)
set_proc-IsValid {k} i p v pos e = record {
  pids = λ j l. ground (arith, v.pids j l);
  reserved = ground arith;
  current_pos = v.current_pos;
  current_in = v.current_in;
}

runnable-pos :
    (f : ℕ → Process) (i : ℕ) → (f 0).p_state ≡ empty → is_runnable (f i).p_state ≡ true → 0 < i
runnable-pos f zero e h = ground arith
runnable-pos f (suc i) e h = omega arith

pub schedule_loop-IsValid :
    (n pid : ℕ) {k : Kernel} → IsValid k → IsValid (final (schedule_loop n pid k))
unfolding schedule_loop
schedule_loop-IsValid zero pid v = v
schedule_loop-IsValid (suc n) pid {k} v =
    elim (Bool-cases (is_runnable (k.proc_array next).p_state)) [
      | inl h ↦ rw h (record {
        pids = v.pids;
        reserved = v.reserved;
        current_pos = runnable-pos k.proc_array next v.reserved h;
        current_in = omega arith;
      })
      | inr h ↦ rw h (schedule_loop-IsValid n next v)
    ]
  where
    next : ℕ
    next = (pid + 1) % nprocs

empty_from-range :
    (n i : ℕ) (k : Kernel) {j : ℕ} → empty_from n i k ≡ some j → (i ≤ j) × (j < i + n)
unfolding empty_from
empty_from-range zero i k h = cc
empty_from-range (suc n) i k {j} h = ground (arith, empty_from-range n (i + 1) k {j = j})

empty_slot-pos : (k : Kernel) {j : ℕ} → empty_slot k ≡ some j → 0 < j
unfolding empty_slot
empty_slot-pos k h = omega (arith, empty_from-range 15 1 k h)

pub schedule-IsValid : {k : Kernel} → IsValid k → IsValid (final (schedule k))
unfolding schedule
schedule-IsValid v = schedule_loop-IsValid nprocs _ v

fork_into-IsValid : {k : Kernel} (i parent : ℕ) → IsValid k → 0 < i → IsValid (fork_into i parent k)
unfolding fork_into copy_stack
fork_into-IsValid {k} i parent v pos = record {
  pids = λ j l. ground (arith, v.pids j l);
  reserved = ground arith;
  current_pos = v.current_pos;
  current_in = v.current_in;
}

thread_into-IsValid :
    {k : Kernel} (i parent entry : ℕ) → IsValid k → 0 < i → IsValid (thread_into i parent entry k)
unfolding thread_into
thread_into-IsValid {k} i parent entry v pos = record {
  pids = λ j l. ground (arith, v.pids j l);
  reserved = ground arith;
  current_pos = v.current_pos;
  current_in = v.current_in;
}

do_fork-IsValid : {k : Kernel} (parent : ℕ) → IsValid k → IsValid (do_fork parent k).1
unfolding do_fork
do_fork-IsValid {k} parent v = go (empty_slot k) refl
  where
    go : (o : Option ℕ) → empty_slot k ≡ o → IsValid (do_fork parent k).1
    go none e = rw (e, do_fork) v
    go (some i) e = rw (e, do_fork) (fork_into-IsValid i parent v (empty_slot-pos k e))

do_newthread-IsValid :
    {k : Kernel} (parent entry : ℕ) → IsValid k → IsValid (do_newthread parent entry k).1
unfolding do_newthread
do_newthread-IsValid {k} parent entry v = go (empty_slot k) refl
  where
    go : (o : Option ℕ) → empty_slot k ≡ o → IsValid (do_newthread parent entry k).1
    go none e = rw (e, do_newthread) v
    go (some i) e = rw (e, do_newthread) (thread_into-IsValid i parent entry v (empty_slot-pos k e))

-- A store that changes no process ID and leaves process 0 as it was, in any number of descriptors.
module _ (k : Kernel) (v : IsValid k) where
  sys_getpid-IsValid : IsValid (final (sys_getpid k))
  unfolding sys_getpid
  sys_getpid-IsValid = set_proc-IsValid k.current _ v v.current_pos refl

  wake_one-IsValid : (status_of i : ℕ) → 0 < i → IsValid (wake_one status_of i k)
  unfolding wake_one
  wake_one-IsValid status_of i pos = record {
    pids = λ j l. ground (arith, v.pids j l);
    reserved = ground (arith, v.reserved, v.current_pos);
    current_pos = ground (arith, v.current_pos);
    current_in = ground (arith, v.current_in);
  }

  wait_on-IsValid : (p : ℕ) → IsValid (wait_on p k)
  unfolding wait_on
  wait_on-IsValid p = record {
    pids = λ j l. ground (arith, v.pids j l);
    reserved = ground (arith, v.reserved, v.current_pos);
    current_pos = ground (arith, v.current_pos);
    current_in = ground (arith, v.current_in);
  }

wake_from-IsValid :
    (n i status_of : ℕ) (k : Kernel)
    → 0 < i
    → IsValid k
    → IsValid (for_range n i (wake_one status_of) k)
unfolding for_range
wake_from-IsValid zero i status_of k pos v = v
wake_from-IsValid (suc n) i status_of k pos v =
    wake_from-IsValid n (i + 1) status_of (wake_one status_of i k) (omega arith)
      (wake_one-IsValid k v status_of i pos)

wake_waiters-IsValid : {k : Kernel} (status_of : ℕ) → IsValid k → IsValid (wake_waiters status_of k)
unfolding wake_waiters
wake_waiters-IsValid status_of v = wake_from-IsValid 15 1 status_of _ (omega arith) v

module _ (k : Kernel) (v : IsValid k) where
  sys_fork-IsValid : IsValid (final (sys_fork k))
  unfolding sys_fork
  sys_fork-IsValid =
      let w = do_fork-IsValid k.current v in set_proc-IsValid _ _ w w.current_pos refl

  sys_thread-IsValid : IsValid (final (sys_thread k))
  unfolding sys_thread
  sys_thread-IsValid =
      let w = do_newthread-IsValid k.current (k.proc_array k.current).p_registers.reg_eax v in
      set_proc-IsValid _ _ w w.current_pos refl

  sys_exit-IsValid : IsValid (final (sys_exit k))
  unfolding sys_exit
  sys_exit-IsValid =
      schedule-IsValid
        (wake_waiters-IsValid k.current (set_proc-IsValid k.current _ v v.current_pos refl))

  sys_wait-IsValid : IsValid (final (sys_wait k))
  unfolding sys_wait
  sys_wait-IsValid = schedule-IsValid (wait_on-IsValid k v (eax k.current k))

  kill_target-IsValid : (t : ℕ) → 0 < t → IsValid (final (kill_target t k))
  unfolding kill_target
  kill_target-IsValid t pos =
      let w = wake_waiters-IsValid t (set_proc-IsValid t (killed (k.proc_array t)) v pos refl) in
      record {
        pids = w.pids;
        reserved = w.reserved;
        current_pos = v.current_pos;
        current_in = v.current_in;
      }

  sys_kill-IsValid : IsValid (final (sys_kill k))
  unfolding sys_kill
  sys_kill-IsValid = elim (Bool-cases (kill_refused (eax k.current k) k)) [
    | inl h ↦ rw h (set_proc-IsValid k.current _ v v.current_pos refl)
    | inr h ↦ rw h (elim (Bool-cases (is_zombie (k.proc_array (eax k.current k)).p_state)) [
      | inl z ↦ rw z (set_proc-IsValid k.current _ v v.current_pos refl)
      | inr z ↦ rw z (kill_target-IsValid (eax k.current k) (ground arith))
    ])
  ]

save-IsValid : (reg : Registers) {k : Kernel} → IsValid k → IsValid (save reg k)
save-IsValid reg {k} v = set_proc-IsValid k.current _ v v.current_pos refl

dispatch-IsValid : (intno : ℕ) {k : Kernel} → IsValid k → IsValid (final (dispatch intno k))
unfolding dispatch
dispatch-IsValid intno {k} v = if_both P (intno == 48) (sys_getpid-IsValid k v) (
    if_both P (intno == 49) (sys_fork-IsValid k v) (
      if_both P (intno == 54) (sys_kill-IsValid k v) (
        if_both P (intno == 53) (sys_thread-IsValid k v) (
          if_both P (intno == 50) (schedule-IsValid v) (
            if_both P (intno == 51) (sys_exit-IsValid k v)
              (if_both P (intno == 52) (sys_wait-IsValid k v) v))))))
  where
    P : Outcome → Type 0
    P out = IsValid (final out)

-- Every interrupt and system call keeps the process table well formed: each descriptor carries its
-- own index as process ID, descriptor 0 stays empty, and `current` points at one of 1 to 15.
pub interrupt-IsValid :
    (reg : Registers) {k : Kernel} → IsValid k → IsValid (final (interrupt reg k))
unfolding interrupt
interrupt-IsValid reg v = dispatch-IsValid reg.reg_intno (save-IsValid reg v)
