-- ===== src/Miniproc/Children.antt =====
-- `sys_fork` and `sys_thread` of kernel.c: what a child starts with.
use code_snippet.Prelude.{
  ℕ, ◌+◌, ◌-◌, ◌*◌, ◌≤◌, ◌<◌, ◌≡◌, refl, ◌⊎◌, ◌==◌, arith, if◌then◌else◌, ◌≢◌, update, ap, some,
}
use code_snippet.Miniproc.Machine.{
  Kernel, Registers, runnable, nprocs, set_eax, with_eax, final, run, proc1_stack_addr,
  proc_stack_size,
}
use code_snippet.Miniproc.Memory.{sub32, memcpy, memcpy_frame, memcpy_copies}
use code_snippet.Miniproc.Fork.{
  empty_slot, stack_top, copy_stack, init_child, fork_into, thread_into,
}
use code_snippet.Miniproc.Interrupt.{save, interrupt}
use code_snippet.Miniproc.Invariant.{IsValid}
use code_snippet.Miniproc.Slots.{Found, empty_slot-Found, saved, fork_run, thread_run}

-- The stack regions of two processes: the child's stack pointer lies as far below the top of its
-- region as the parent's does.
abbrev pub child_esp : ℕ → ℕ → ℕ → ℕ
child_esp c p esp =
    proc1_stack_addr + c * proc_stack_size - (proc1_stack_addr + p * proc_stack_size - esp)

-- The parent's stack pointer lies within its stack region.
abbrev pub InStack : ℕ → ℕ → Type 0
InStack p esp =
    (proc1_stack_addr + p * proc_stack_size ≤ esp + proc_stack_size)
    × (esp ≤ proc1_stack_addr + p * proc_stack_size)

no_wrap :
    (c p esp : ℕ)
    → c < nprocs
    → p < nprocs
    → InStack p esp
    → (sub32 (stack_top p) esp ≡ proc1_stack_addr + p * proc_stack_size - esp)
      × (sub32 (stack_top c) (proc1_stack_addr + p * proc_stack_size - esp) ≡ child_esp c p esp)
no_wrap c p esp hc hp s = omega arith

copy_stack_lem :
    (c p esp : ℕ) (k : Kernel)
    → c < nprocs
    → p < nprocs
    → (k.proc_array c).p_pid ≡ c
    → (k.proc_array p).p_pid ≡ p
    → (k.proc_array p).p_registers.reg_esp ≡ esp
    → InStack p esp
    → let d = k.proc_array c in
      let esp' = child_esp c p esp in
      copy_stack c p k ≡ record k {
        proc_array =
            update k.proc_array c
              (record d { p_registers = record (d.p_registers) { reg_esp = esp' } });
        mem = memcpy esp' esp (proc1_stack_addr + p * proc_stack_size - esp) k.mem;
      }
unfolding copy_stack
copy_stack_lem c p esp k hc hp ec ep e s =
    let n = no_wrap c p esp hc hp s in rw (ec, ep, e, n.0, n.1)

-- The kernel before and after `copy_stack` in a call of `do_fork` by the current process.
abbrev start : Registers → Kernel → ℕ → Kernel
start reg k c = init_child c k.current (save reg k)

abbrev copied : Registers → Kernel → ℕ → Kernel
copied reg k c = copy_stack c k.current (start reg k c)

module _ (reg : Registers) (k : Kernel) (c : ℕ) (v : IsValid k) (s : InStack k.current reg.reg_esp)
    (hc : c < nprocs) (ne : c ≢ k.current) where
  abbrev esp' : ℕ
  esp' = child_esp c k.current reg.reg_esp

  start-esp : ((start reg k c).proc_array k.current).p_registers.reg_esp ≡ reg.reg_esp
  start-esp = ground arith

  copied-eq : copied reg k c ≡ record (start reg k c) {
    proc_array = update (start reg k c).proc_array c (record ((start reg k c).proc_array c) {
      p_registers = record (((start reg k c).proc_array c).p_registers) { reg_esp = esp' };
    });
    mem =
        memcpy esp' reg.reg_esp
          (proc1_stack_addr + k.current * proc_stack_size - reg.reg_esp)
          k.mem;
  }
  copied-eq =
      copy_stack_lem c k.current reg.reg_esp (start reg k c) hc v.current_in
        (ground (arith, v.pids c hc)) (ground (arith, v.pids k.current)) start-esp s

  copied-proc :
      (j : ℕ)
      → (copied reg k c).proc_array j ≡ (
          if c == j
          then record (k.proc_array c) {
            waiting_q = λ j. 0;
            p_state = runnable;
            p_registers = record reg { reg_esp = esp' };
          }
          else if k.current == j
          then saved reg k
          else k.proc_array j)
  copied-proc j = rw copied-eq (ground arith)

  copied-current : (copied reg k c).current ≡ k.current
  copied-current = ap (λ x. x.current) copied-eq

  copied-mem :
      (copied reg k c).mem
      ≡ memcpy esp' reg.reg_esp (proc1_stack_addr + k.current * proc_stack_size - reg.reg_esp) k.mem
  copied-mem = ap (λ x. x.mem) copied-eq

-- `sys_fork` from a running process whose stack pointer lies within its stack region: the lowest
-- empty slot gets a runnable child with the parent's registers, but 0 in %eax and a stack pointer as
-- far below the top of its own region; the child's stack holds the parent's bytes, and no byte outside
-- it changes; the parent goes on with the child's ID in %eax; no other descriptor changes.
pub fork_makes_child :
    (reg : Registers) (k : Kernel) (c : ℕ)
    → IsValid k
    → reg.reg_intno ≡ 49
    → InStack k.current reg.reg_esp
    → (k.proc_array k.current).p_state ≡ runnable
    → empty_slot k ≡ some c
    → let after = final (interrupt reg k) in
      let esp' = child_esp c k.current reg.reg_esp in
      (interrupt reg k ≡ run k.current after)
      × (after.proc_array c ≡ record (k.proc_array c) {
        waiting_q = λ j. 0;
        p_state = runnable;
        p_registers = record reg { reg_esp = esp'; reg_eax = 0 };
      })
      × (after.proc_array k.current ≡ with_eax c (saved reg k))
      × ((j : ℕ) → j ≢ c → j ≢ k.current → after.proc_array j ≡ k.proc_array j)
      × ((i : ℕ)
          → reg.reg_esp + i < proc1_stack_addr + k.current * proc_stack_size
          → after.mem (esp' + i) ≡ k.mem (reg.reg_esp + i))
      × ((a : ℕ)
          → (a < esp') ⊎ (proc1_stack_addr + c * proc_stack_size ≤ a)
          → after.mem a ≡ k.mem a)
unfolding fork_into
fork_makes_child reg k c v intno s alive slot = rw (fork_run reg k intno slot) (
  ap (λ i. run i (set_eax made.current c made)) here,
  ground (arith, ne, here, copied-proc reg k c v s hc ne c),
  ground (arith, ne, here, copied-proc reg k c v s hc ne k.current),
  (λ j n m. ground (arith, ne, here, copied-proc reg k c v s hc ne j)),
  (λ i l. rw mem (memcpy_copies esp reg.reg_esp size k.mem i (apart) (omega arith))),
  (λ a l. rw mem (memcpy_frame esp reg.reg_esp size k.mem a (omega arith))),
)
  where
    range : Found k 15 1 (some c)
    range = rw slot at (empty_slot-Found k)

    hc : c < nprocs
    hc = range.1

    ne : c ≢ k.current
    ne e = ground (arith, range.2)

    made : Kernel
    made = set_eax c 0 (copied reg k c)

    here : (copied reg k c).current ≡ k.current
    here = copied-current reg k c v s hc ne

    esp : ℕ
    esp = child_esp c k.current reg.reg_esp

    size : ℕ
    size = proc1_stack_addr + k.current * proc_stack_size - reg.reg_esp

    mem : (copied reg k c).mem ≡ memcpy esp reg.reg_esp size k.mem
    mem = copied-mem reg k c v s hc ne

    apart : (esp + size ≤ reg.reg_esp) ⊎ (reg.reg_esp + size ≤ esp)
    apart = omega (arith, ne, s)

-- `sys_thread` from a running process: the lowest empty slot gets a runnable child with the caller's
-- registers, but 0 in %eax, the empty stack of its own region and the start function (the caller's
-- %eax) as the next instruction; memory stays as it was; the caller goes on with the child's ID in
-- %eax; no other descriptor changes.
pub thread_starts_child :
    (reg : Registers) (k : Kernel) (c : ℕ)
    → IsValid k
    → reg.reg_intno ≡ 53
    → (k.proc_array k.current).p_state ≡ runnable
    → empty_slot k ≡ some c
    → let after = final (interrupt reg k) in
      (interrupt reg k ≡ run k.current after)
      × (after.proc_array c ≡ record (k.proc_array c) {
        waiting_q = λ j. 0;
        p_state = runnable;
        p_registers = record reg {
          reg_esp = proc1_stack_addr + c * proc_stack_size;
          reg_eip = reg.reg_eax;
          reg_eax = 0;
        };
      })
      × (after.proc_array k.current ≡ with_eax c (saved reg k))
      × ((j : ℕ) → j ≢ c → j ≢ k.current → after.proc_array j ≡ k.proc_array j)
      × (after.mem ≡ k.mem)
unfolding thread_into
thread_starts_child reg k c v intno alive slot =
    rw (thread_run reg k intno slot)
      (refl, ground (arith, ne, top), ground (arith, ne), (λ j n m. ground (arith, ne)), refl)
  where
    range : Found k 15 1 (some c)
    range = rw slot at (empty_slot-Found k)

    ne : c ≢ k.current
    ne e = ground (arith, range.2)

    top : stack_top c ≡ proc1_stack_addr + c * proc_stack_size
    top = omega (arith, range.1)
