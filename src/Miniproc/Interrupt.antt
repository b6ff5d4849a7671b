-- ===== src/Miniproc/Interrupt.antt =====
-- `interrupt` of OS/WeensyOS/MiniprocOS/kernel.c, one function for each system call.
use code_snippet.Prelude.{ℕ, Bool, ◌==◌, ◌||◌, if◌then◌else◌, update, for_range}
use code_snippet.Miniproc.Machine.{
  Kernel, Process, Registers, Outcome, spinning, empty, runnable, blocked, zombie, is_empty,
  is_zombie, nprocs, minus_one, set_proc, set_state, set_eax, run,
}
use code_snippet.Miniproc.Memory.{int_le_zero, int_ge}
use code_snippet.Miniproc.Fork.{do_fork, do_newthread}
use code_snippet.Miniproc.Schedule.{schedule}

abbrev pub eax : ℕ → Kernel → ℕ
eax i k = (k.proc_array i).p_registers.reg_eax

unfoldable pub sys_getpid : Kernel → Outcome
sys_getpid k = run k.current (set_eax k.current (k.proc_array k.current).p_pid k)

unfoldable pub sys_fork : Kernel → Outcome
sys_fork k = let (r, k') = do_fork k.current k in run k'.current (set_eax k'.current r k')

-- The body of the loop that wakes the processes which wait on `current`; `status_of` is the process
-- whose exit status they are given.
unfoldable pub wake_one : ℕ → ℕ → Kernel → Kernel
wake_one status_of i k =
    if (k.proc_array k.current).waiting_q i == 0
    then k
    else (let k1 = set_state i runnable k in
        let k2 = set_eax i (k1.proc_array status_of).p_exit_status k1 in
        set_state k.current empty k2)

-- for(i = 1; i < NPROCS; i++)
unfoldable pub wake_waiters : ℕ → Kernel → Kernel
wake_waiters status_of k = for_range 15 1 (wake_one status_of) k

-- The test under which `sys_kill` answers -1. The arguments of `||` after the bounds are read in the
-- source only within them.
abbrev pub kill_refused : ℕ → Kernel → Bool
kill_refused killpid k =
    int_le_zero killpid
    || int_ge killpid nprocs
    || killpid == k.current
    || is_empty (k.proc_array killpid).p_state

abbrev pub killed : Process → Process
killed target = record target { p_state = zombie; p_exit_status = minus_one }

-- The end of `sys_kill`, once the target is known to be alive.
unfoldable pub kill_target : ℕ → Kernel → Outcome
kill_target killpid k =
    run k.current (wake_waiters killpid (set_proc killpid (killed (k.proc_array killpid)) k))

unfoldable pub sys_kill : Kernel → Outcome
sys_kill k =
    let cur = k.current in
    let killpid = eax cur k in
    if kill_refused killpid k
    then run cur (set_eax cur minus_one k)
    else if is_zombie (k.proc_array killpid).p_state
    then run cur (set_eax cur 0 k)
    else kill_target killpid k

unfoldable pub sys_thread : Kernel → Outcome
sys_thread k =
    let (r, k') = do_newthread k.current (eax k.current k) k in
    run k'.current (set_eax k'.current r k')

unfoldable pub sys_exit : Kernel → Outcome
sys_exit k =
    let cur = k.current in
    schedule (
      wake_waiters cur (
        set_proc cur (record (k.proc_array cur) { p_state = zombie; p_exit_status = eax cur k }) k))

unfoldable pub wait_on : ℕ → Kernel → Kernel
wait_on p k =
    let cur = k.current in
    let q = k.proc_array p in
    if int_le_zero p || int_ge p nprocs || p == (k.proc_array cur).p_pid || is_empty q.p_state
    then set_eax cur minus_one k
    else if is_zombie q.p_state
    then set_eax cur q.p_exit_status (set_state p empty k)
    else set_state cur blocked
        (set_proc p (record q { waiting_q = update q.waiting_q (k.proc_array cur).p_pid 1 }) k)

unfoldable pub sys_wait : Kernel → Outcome
sys_wait k = schedule (wait_on (eax k.current k) k)

-- The first line of the handler copies the saved registers into the descriptor of `current`.
abbrev pub save : Registers → Kernel → Kernel
save reg k = set_proc k.current (record (k.proc_array k.current) { p_registers = reg }) k

-- `switch (reg->reg_intno)`; the default case loops.
unfoldable pub dispatch : ℕ → Kernel → Outcome
dispatch intno k =
    if intno == 48
    then sys_getpid k
    else if intno == 49
    then sys_fork k
    else if intno == 54
    then sys_kill k
    else if intno == 53
    then sys_thread k
    else if intno == 50
    then schedule k
    else if intno == 51
    then sys_exit k
    else if intno == 52
    then sys_wait k
    else spinning k

unfoldable pub interrupt : Registers → Kernel → Outcome
interrupt reg k = dispatch reg.reg_intno (save reg k)
