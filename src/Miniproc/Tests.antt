-- ===== src/Miniproc/Tests.antt =====
-- A small process table, the calls run on it, and the theorems applied to it. Process 1 runs, 2 is
-- runnable and 3 waits on 2, 4 is a zombie that exited with 7, and 5 waits on 1.
use code_snippet.Prelude.{
  ℕ, ◌+◌, ◌≤◌, ◌<◌, ◌≡◌, refl, ◌⊎◌, [], ◌∷◌, some, ◌==◌, ◌||◌, arith, if◌then◌else◌, for_range, ◌≢◌,
}
use code_snippet.Miniproc.Machine.{
  Kernel, Process, Registers, running, ProcState, empty, runnable, blocked, zombie, zero_registers,
  nprocs, minus_one, final, run, with_eax,
}
use code_snippet.Miniproc.Memory.{memcpy}
use code_snippet.Miniproc.Schedule.{schedule_loop, schedule, Picks, schedule-Picks}
use code_snippet.Miniproc.Fork.{empty_from, empty_slot, copy_stack, fork_into, do_fork}
use code_snippet.Miniproc.Interrupt.{
  sys_fork, wake_one, wake_waiters, sys_exit, dispatch, interrupt,
}
use code_snippet.Miniproc.Invariant.{IsValid, interrupt-IsValid}
use code_snippet.Miniproc.Slots.{saved}
use code_snippet.Miniproc.Children.{fork_makes_child}
use code_snippet.Miniproc.Kill.{kill_strands_waiters, kill_frees_killer}
use code_snippet.Miniproc.Resume.{IsResumed, interrupt_resumes_runnable}
use code_snippet.Miniproc.Boot.{read_program}

abbrev call : ℕ → ℕ → Registers
call intno eax = record zero_registers { reg_intno = intno; reg_eax = eax; reg_esp = 0x2BFFF0 }

abbrev process : ℕ → ProcState → Process
process i s = record {
  waiting_q =
      λ j. if (i == 2 || i == 1) then (if j == (if i == 2 then 3 else 5) then 1 else 0) else 0;
  p_pid = i;
  p_registers = call 0 0;
  p_state = s;
  p_exit_status = if i == 4 then 7 else 0;
}

abbrev state_of : ℕ → ProcState
state_of i =
    if i == 1 || i == 2
    then runnable
    else if i == 3 || i == 5
    then blocked
    else if i == 4
    then zombie
    else empty

abbrev machine : ℕ → Kernel
machine cur = record { proc_array = λ i. process i (state_of i); current = cur; mem = λ a. a }

machine-IsValid : (cur : ℕ) → 0 < cur → cur < nprocs → IsValid (machine cur)
machine-IsValid cur p l = record {
  pids = λ i h. refl;
  reserved = refl;
  current_pos = p;
  current_in = l;
}

IsValid-machine_1 : IsValid (machine 1)
IsValid-machine_1 = machine-IsValid 1 (omega arith) (omega arith)

-- The exit of process 2 hands 9 to process 3, frees slot 2, and runs process 3.
exit_runs_waiter :
    let k = final (interrupt (call 51 9) (machine 2)) in
    ((k.proc_array 3).p_registers.reg_eax ≡ 9)
    × ((k.proc_array 2).p_state ≡ empty)
    × (k.current ≡ 3)
unfolding interrupt dispatch sys_exit wake_waiters wake_one for_range schedule schedule_loop
exit_runs_waiter = (refl, refl, refl)

fork_takes_slot_6 :
    let k = final (interrupt (call 49 0) (machine 1)) in
    ((k.proc_array 6).p_state ≡ runnable)
    × ((k.proc_array 6).p_registers.reg_esp ≡ 0x3FFFF0)
    × (k.mem 0x3FFFF3 ≡ 0x2BFFF3)
unfolding interrupt dispatch sys_fork do_fork empty_slot empty_from fork_into copy_stack memcpy
fork_takes_slot_6 = (refl, refl, refl)

interrupt-IsValid_example : IsValid (final (interrupt (call 49 0) (machine 1)))
interrupt-IsValid_example = interrupt-IsValid (call 49 0) IsValid-machine_1

schedule-Picks_example : Picks (machine 1) 1 16 (schedule (machine 1))
schedule-Picks_example = schedule-Picks (machine 1)

-- Process 1 waits on 2, and then 2 runs and exits with 9.
abbrev after_wait : Kernel
after_wait = record (final (interrupt (call 52 2) (machine 1))) { current = 2 }

kill_strands_waiters_example :
    let after = (final (interrupt (call 54 2) (machine 5))).proc_array in
    (after 2 ≡ record (process 2 runnable) { p_state = zombie; p_exit_status = minus_one })
    × ((j : ℕ) → j ≢ 2 → j ≢ 5 → after j ≡ process j (state_of j))
kill_strands_waiters_example =
    kill_strands_waiters (call 54 2) (machine 5) refl (omega arith) refl (λ w p l. refl)

kill_frees_killer_example :
    let after = final (interrupt (call 54 2) (machine 1)) in
    (interrupt (call 54 2) (machine 1) ≡ running after)
    × (after.current ≡ 1)
    × ((after.proc_array 1).p_state ≡ empty)
    × (after.proc_array 5 ≡ with_eax minus_one (record (process 5 blocked) { p_state = runnable }))
kill_frees_killer_example =
    kill_frees_killer (call 54 2) (machine 1) 5 refl (omega arith) refl (omega arith) (omega arith)
      (omega arith) (omega arith) (omega arith)

abbrev full : Kernel
full = record (machine 1) { proc_array = λ i. process i (if i == 0 then empty else runnable) }

slot_6 : empty_slot (machine 1) ≡ some 6
unfolding empty_slot empty_from
slot_6 = refl

abbrev forked : Kernel
forked = final (interrupt (call 49 0) (machine 1))

fork_makes_child_example :
    (interrupt (call 49 0) (machine 1) ≡ run 1 forked)
    × (forked.proc_array 6 ≡ record (process 6 runnable) {
      waiting_q = λ j. 0;
      p_registers = record (call 49 0) { reg_esp = 0x3FFFF0 };
    })
    × (forked.proc_array 1 ≡ with_eax 6 (saved (call 49 0) (machine 1)))
    × ((j : ℕ) → j ≢ 6 → j ≢ 1 → forked.proc_array j ≡ process j (state_of j))
    × ((i : ℕ) → 0x2BFFF0 + i < 0x2C0000 → forked.mem (0x3FFFF0 + i) ≡ 0x2BFFF0 + i)
    × ((a : ℕ) → (a < 0x3FFFF0) ⊎ (0x400000 ≤ a) → forked.mem a ≡ a)
fork_makes_child_example =
    fork_makes_child (call 49 0) (machine 1) 6 IsValid-machine_1 refl (omega arith) refl slot_6

abbrev threaded : Kernel
threaded = final (interrupt (call 53 0x200000) (machine 1))

interrupt_resumes_runnable_example : IsResumed (interrupt (call 51 9) (machine 2))
interrupt_resumes_runnable_example =
    interrupt_resumes_runnable (call 51 9) (machine 2) refl (omega arith)

-- The keys -1, 0 and 2: program 1 is loaded.
abbrev loaded : ℕ → (ℕ → ℕ) → ℕ × (ℕ → ℕ)
loaded n mem = (0x200000 + n, mem)

key_2 : read_program (minus_one ∷ 0 ∷ 2 ∷ []) ≡ some 2
unfolding read_program
key_2 = refl
