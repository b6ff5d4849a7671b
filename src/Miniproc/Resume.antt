-- ===== src/Miniproc/Resume.antt =====
-- Which process the kernel of MiniprocOS resumes after an interrupt.
use code_snippet.Prelude.{
  ℕ, zero, suc, ◌+◌, ◌≡◌, refl, inl, inr, ◌==◌, arith, Bool-cases, if_both, if_else, ◌≢◌, Option,
  none, some, ◌%◌,
}
use code_snippet.Miniproc.Machine.{
  Kernel, Registers, Outcome, running, spinning, is_runnable, nprocs,
}
use code_snippet.Miniproc.Schedule.{schedule, schedule_loop, RunnableAt}
use code_snippet.Miniproc.Fork.{empty_slot, copy_stack, fork_into, thread_into}
use code_snippet.Miniproc.Interrupt.{
  eax, save, sys_getpid, sys_fork, sys_thread, sys_exit, sys_wait, dispatch, interrupt,
}
use code_snippet.Miniproc.Slots.{
  Found, empty_slot-Found, do_fork-none, do_fork-some, do_newthread-none, do_newthread-some,
}

-- Where the kernel runs a process, that process is runnable.
abbrev pub IsResumed : Outcome → Type 0
IsResumed (running k) = RunnableAt k k.current
IsResumed (spinning k) = Unit

schedule_loop-IsResumed : (n pid : ℕ) (k : Kernel) → IsResumed (schedule_loop n pid k)
unfolding schedule_loop
schedule_loop-IsResumed zero pid k = tt
schedule_loop-IsResumed (suc n) pid k =
    elim (Bool-cases (is_runnable (k.proc_array next).p_state)) [
      | inl h ↦ rw h h
      | inr h ↦ rw h (schedule_loop-IsResumed n next k)
    ]
  where
    next : ℕ
    next = (pid + 1) % nprocs

schedule-IsResumed : (k : Kernel) → IsResumed (schedule k)
unfolding schedule
schedule-IsResumed k = schedule_loop-IsResumed nprocs _ k

module _ (k : Kernel) (h : RunnableAt k k.current) where
  sys_getpid-IsResumed : IsResumed (sys_getpid k)
  unfolding sys_getpid
  sys_getpid-IsResumed = ground arith

  child-ne : {c : ℕ} → empty_slot k ≡ some c → c ≢ k.current
  child-ne {c} slot e =
      let f : Found k 15 1 (some c) = rw slot at (empty_slot-Found k) in ground (arith, f.2)

  sys_fork-IsResumed : IsResumed (sys_fork k)
  unfolding sys_fork
  sys_fork-IsResumed = go (empty_slot k) refl
    where
      go : (o : Option ℕ) → empty_slot k ≡ o → IsResumed (sys_fork k)
      go none e = rw (do_fork-none k.current k e) (ground arith)
      go (some c) e =
          rw (do_fork-some k.current k e)
            (unfold fork_into copy_stack in ground (arith, child-ne e))

  sys_thread-IsResumed : IsResumed (sys_thread k)
  unfolding sys_thread
  sys_thread-IsResumed = go (empty_slot k) refl
    where
      go : (o : Option ℕ) → empty_slot k ≡ o → IsResumed (sys_thread k)
      go none e = rw (do_newthread-none k.current (eax k.current k) k e) (ground arith)
      go (some c) e =
          rw (do_newthread-some k.current (eax k.current k) k e)
            (unfold thread_into in ground (arith, child-ne e))

  dispatch-IsResumed : (intno : ℕ) → intno ≢ 54 → IsResumed (dispatch intno k)
  unfolding dispatch sys_exit sys_wait
  dispatch-IsResumed intno other = if_both P (intno == 48) sys_getpid-IsResumed (
      if_both P (intno == 49) sys_fork-IsResumed (
        if_else P (intno == 54) _ (ground arith) (
          if_both P (intno == 53) sys_thread-IsResumed (
            if_both P (intno == 50) (schedule-IsResumed k) (
              if_both P (intno == 51) (schedule-IsResumed _)
                (if_both P (intno == 52) (schedule-IsResumed _) tt))))))
    where
      P : Outcome → Type 0
      P out = IsResumed out

-- After every interrupt but `sys_kill` that comes while the current process is runnable, if the kernel runs a
-- process then that process is runnable.
-- (`Kill.kill_frees_killer` shows the exception.)
pub interrupt_resumes_runnable :
    (reg : Registers) (k : Kernel)
    → RunnableAt k k.current
    → reg.reg_intno ≢ 54
    → IsResumed (interrupt reg k)
unfolding interrupt
interrupt_resumes_runnable reg k h other =
    dispatch-IsResumed (save reg k) (ground arith) reg.reg_intno other
