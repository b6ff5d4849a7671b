-- ===== src/Miniproc/Fork.antt =====
-- `do_fork`, `copy_stack` and `do_newthread` of OS/WeensyOS/MiniprocOS/kernel.c.
use code_snippet.Prelude.{ℕ, zero, suc, ◌+◌, ◌*◌, Option, none, some, if◌then◌else◌}
use code_snippet.Miniproc.Machine.{
  Kernel, runnable, is_empty, proc1_stack_addr, proc_stack_size, minus_one, set_proc, set_eax,
}
use code_snippet.Miniproc.Memory.{u32, sub32, memcpy}

-- for(i = 1; i < NPROCS; i++) if(proc_array[i].p_state == P_EMPTY) …
unfoldable pub empty_from : ℕ → ℕ → Kernel → Option ℕ
empty_from zero i k = none
empty_from (suc n) i k =
    let rest = empty_from n (i + 1) k in if is_empty (k.proc_array i).p_state then some i else rest

unfoldable pub empty_slot : Kernel → Option ℕ
empty_slot k = empty_from 15 1 k

-- The top of a process's stack region.
abbrev pub stack_top : ℕ → ℕ
stack_top pid = u32 (proc1_stack_addr + pid * proc_stack_size)

unfoldable pub copy_stack : ℕ → ℕ → Kernel → Kernel
copy_stack dest src k =
    let d = k.proc_array dest in
    let s = k.proc_array src in
    let src_stack_top = stack_top s.p_pid in
    let src_stack_bottom = s.p_registers.reg_esp in
    let dest_stack_top = stack_top d.p_pid in
    let size = sub32 src_stack_top src_stack_bottom in
    let dest_stack_bottom = sub32 dest_stack_top size in
    let k' =
      set_proc dest
        (record d { p_registers = record (d.p_registers) { reg_esp = dest_stack_bottom } }) k in
    record k' { mem = memcpy dest_stack_bottom src_stack_bottom size k.mem }

-- The stores into the child's descriptor before its stack is made.
abbrev pub init_child : ℕ → ℕ → Kernel → Kernel
init_child child parent k =
    set_proc child
      (record (k.proc_array child) {
        waiting_q = λ j. 0;
        p_state = runnable;
        p_registers = (k.proc_array parent).p_registers;
      })
      k

unfoldable pub fork_into : ℕ → ℕ → Kernel → Kernel
fork_into child parent k = set_eax child 0 (copy_stack child parent (init_child child parent k))

unfoldable pub do_fork : ℕ → Kernel → ℕ × Kernel
do_fork parent k = elim (empty_slot k) [
  | none ↦ (minus_one, k)
  | some i ↦ (i, fork_into i parent k)
]

unfoldable pub thread_into : ℕ → ℕ → ℕ → Kernel → Kernel
thread_into child parent start_function k =
    let k' = init_child child parent k in
    let c = k'.proc_array child in
    set_proc child
      (record c {
        p_registers = record (c.p_registers) {
          reg_esp = stack_top child;
          reg_eip = start_function;
          reg_eax = 0;
        };
      })
      k'

unfoldable pub do_newthread : ℕ → ℕ → Kernel → ℕ × Kernel
do_newthread parent start_function k = elim (empty_slot k) [
  | none ↦ (minus_one, k)
  | some i ↦ (i, thread_into i parent start_function k)
]
