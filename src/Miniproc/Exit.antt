-- ===== src/Miniproc/Exit.antt =====
-- `sys_exit` and `sys_wait` of kernel.c: how an exit status reaches a waiting process.
use code_snippet.Prelude.{
  ℕ, ◌+◌, ◌%◌, ◌≤◌, ◌<◌, ◌≡◌, refl, ◌∙◌, ◌⊎◌, Bool, not, ◌&&◌, true, arith, ◌≢◌, update, ap,
}
use mathlib.Core.Path.{fun_ext}
use code_snippet.Miniproc.Machine.{
  Kernel, Process, Registers, ProcState, empty, runnable, blocked, zombie, is_empty, is_zombie,
  nprocs, minus_one, set_proc, with_eax, final,
}
use code_snippet.Miniproc.Schedule.{schedule, schedule_loop}
use code_snippet.Miniproc.Interrupt.{
  eax, save, wake_waiters, sys_exit, wait_on, sys_wait, dispatch, interrupt,
}
use code_snippet.Miniproc.Invariant.{IsValid}
use code_snippet.Miniproc.Slots.{saved}
use code_snippet.Miniproc.Wake.{wake_waiters-other, wake_waiters-frees, wake_waiters-nobody}

-- The scheduler writes no descriptor.
schedule_loop-proc_array :
    (n pid : ℕ) (k : Kernel) → (final (schedule_loop n pid k)).proc_array ≡ k.proc_array
unfolding schedule_loop
schedule_loop-proc_array ℕ.zero pid k = refl
schedule_loop-proc_array (ℕ.suc n) pid k =
    ground (arith, schedule_loop-proc_array n ((pid + 1) % nprocs) k)

pub schedule-proc_array : (k : Kernel) → (final (schedule k)).proc_array ≡ k.proc_array
unfolding schedule
schedule-proc_array k = schedule_loop-proc_array nprocs _ k

-- The table that `sys_exit` hands to its waking loop: the current process is a zombie.
abbrev pub exited : Registers → Process → Process
exited reg p = record p { p_registers = reg; p_state = zombie; p_exit_status = reg.reg_eax }

abbrev exiting : Registers → Kernel → Kernel
exiting reg k =
    set_proc k.current
      (record ((save reg k).proc_array k.current) {
        p_state = zombie;
        p_exit_status = eax k.current (save reg k);
      })
      (save reg k)

interrupt-exit :
    (reg : Registers) (k : Kernel) → reg.reg_intno ≡ 51 → interrupt reg k ≡ sys_exit (save reg k)
unfolding interrupt dispatch
interrupt-exit reg k e = ap (λ n. dispatch n (save reg k)) e

exit_table :
    (reg : Registers) (k : Kernel)
    → reg.reg_intno ≡ 51
    → (final (interrupt reg k)).proc_array ≡ (wake_waiters k.current (exiting reg k)).proc_array
unfolding sys_exit
exit_table reg k e =
    ap (λ out. (final out).proc_array) (interrupt-exit reg k e) ∙ schedule-proc_array _

-- `sys_exit` with process `w` of 1 to 15 marked in the waiting queue of the exiting process, and not the
-- exiting process itself: `w` is runnable with the exit status in %eax, and the slot of the exiting
-- process is free.
pub exit_delivers_status :
    (reg : Registers) (k : Kernel) (w : ℕ)
    → reg.reg_intno ≡ 51
    → 0 < w
    → w < nprocs
    → w ≢ k.current
    → (k.proc_array k.current).waiting_q w ≢ 0
    → let after = final (interrupt reg k) in
      (after.proc_array w ≡ with_eax reg.reg_eax (record (k.proc_array w) { p_state = runnable }))
      × ((after.proc_array k.current).p_state ≡ empty)
exit_delivers_status reg k w intno pos l ne waits = rw (exit_table reg k intno) (
  ground (arith, wake_waiters-other k.current k' w ne pos l),
  wake_waiters-frees k.current k' w pos l (ground arith),
)
  where
    k' : Kernel
    k' = exiting reg k

-- After `sys_exit` with nobody in its waiting queue the process stays a zombie with its exit status; no other
-- descriptor changes.
pub exit_leaves_zombie :
    (reg : Registers) (k : Kernel)
    → reg.reg_intno ≡ 51
    → ((w : ℕ) → 0 < w → w < nprocs → (k.proc_array k.current).waiting_q w ≡ 0)
    → (final (interrupt reg k)).proc_array
      ≡ update k.proc_array k.current (exited reg (k.proc_array k.current))
exit_leaves_zombie reg k intno nobody =
    exit_table reg k intno
    ∙ ap (λ t. t.proc_array)
        (wake_waiters-nobody k.current (exiting reg k) (λ w p l. ground (arith, nobody w p l)))
    ∙ fun_ext (λ j. ground arith)

interrupt-wait :
    (reg : Registers) (k : Kernel) → reg.reg_intno ≡ 52 → interrupt reg k ≡ sys_wait (save reg k)
unfolding interrupt dispatch
interrupt-wait reg k e = ap (λ n. dispatch n (save reg k)) e

wait_table :
    (reg : Registers) (k : Kernel)
    → reg.reg_intno ≡ 52
    → (final (interrupt reg k)).proc_array
      ≡ (wait_on (eax k.current (save reg k)) (save reg k)).proc_array
unfolding sys_wait
wait_table reg k e =
    ap (λ out. (final out).proc_array) (interrupt-wait reg k e) ∙ schedule-proc_array _

abbrev pub is_alive : ProcState → Bool
is_alive s = not (is_empty s) && not (is_zombie s)

abbrev pub Names : ℕ → Kernel → Type 0
Names p k = (0 < p) × (p < nprocs) × (p ≢ k.current)

-- `sys_wait` on a zombie returns the exit status in %eax and frees the zombie's slot; no other
-- descriptor changes.
pub wait_reaps :
    (reg : Registers) (k : Kernel)
    → IsValid k
    → reg.reg_intno ≡ 52
    → let p = reg.reg_eax in
      Names p k
      → (k.proc_array p).p_state ≡ zombie
      → let after = (final (interrupt reg k)).proc_array in
        (after p ≡ record (k.proc_array p) { p_state = empty })
        × (after k.current ≡ with_eax (k.proc_array p).p_exit_status (saved reg k))
        × ((j : ℕ) → j ≢ p → j ≢ k.current → after j ≡ k.proc_array j)
unfolding wait_on
wait_reaps reg k v intno named z = rw (wait_table reg k intno) (
  ground (arith, v.pids k.current),
  ground (arith, v.pids k.current),
  λ j n m. ground (arith, v.pids k.current),
)

-- `sys_wait` on a live process blocks the caller, and marks it in the waiting queue of that process
-- and nowhere else; no other descriptor changes.
pub wait_blocks :
    (reg : Registers) (k : Kernel)
    → IsValid k
    → reg.reg_intno ≡ 52
    → let p = reg.reg_eax in
      Names p k
      → is_alive (k.proc_array p).p_state ≡ true
      → let after = (final (interrupt reg k)).proc_array in
        (after p
          ≡ record (k.proc_array p) { waiting_q = update (k.proc_array p).waiting_q k.current 1 })
        × (after k.current ≡ record (saved reg k) { p_state = blocked })
        × ((j : ℕ) → j ≢ p → j ≢ k.current → after j ≡ k.proc_array j)
unfolding wait_on
wait_blocks reg k v intno named a = rw (wait_table reg k intno) (
  ground (arith, v.pids k.current),
  ground (arith, v.pids k.current),
  λ j n m. ground (arith, v.pids k.current),
)

-- The calls that `sys_wait` and `sys_kill` refuse.
abbrev pub Refusable : ℕ → Kernel → Type 0
Refusable p k = (p ≡ 0) ⊎ ((nprocs ≤ p) ⊎ ((p ≡ k.current) ⊎ ((k.proc_array p).p_state ≡ empty)))

-- `sys_wait` on an ID out of range, on the caller itself or on an empty slot returns -1 in the
-- caller's %eax and changes no other descriptor.
pub wait_refuses :
    (reg : Registers) (k : Kernel)
    → IsValid k
    → reg.reg_intno ≡ 52
    → Refusable reg.reg_eax k
    → (final (interrupt reg k)).proc_array
      ≡ update k.proc_array k.current (with_eax minus_one (saved reg k))
unfolding wait_on
wait_refuses reg k v intno bad =
    wait_table reg k intno ∙ fun_ext (λ j. ground (arith, v.pids k.current))
