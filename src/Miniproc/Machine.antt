-- ===== src/Miniproc/Machine.antt =====
-- The data of MiniprocOS (OS/WeensyOS/MiniprocOS): process descriptors, registers and the kernel's
-- memory. A `uint32_t` is a number below 2 ^ 32, and an `int` is its bit pattern.
use code_snippet.Prelude.{ℕ, ◌-◌, ◌^◌, List, [], Bool, update}

pub data ProcState : Type 0 where
  empty runnable blocked zombie : ProcState

abbrev pub is_empty : ProcState → Bool
is_empty empty = Bool.true
is_empty _ = Bool.false

abbrev pub is_runnable : ProcState → Bool
is_runnable runnable = Bool.true
is_runnable _ = Bool.false

abbrev pub is_zombie : ProcState → Bool
is_zombie zombie = Bool.true
is_zombie _ = Bool.false

-- `registers_t`. The registers that the kernel only saves and restores are one list.
pub record Registers : Type 0 where
  pub reg_eax : ℕ
  pub reg_esp : ℕ
  pub reg_eip : ℕ
  pub reg_intno : ℕ
  pub reg_cs : ℕ
  pub reg_ds : ℕ
  pub reg_es : ℕ
  pub reg_ss : ℕ
  pub others : List ℕ

pub record Process : Type 0 where
  pub waiting_q : ℕ → ℕ
  pub p_pid : ℕ
  pub p_registers : Registers
  pub p_state : ProcState
  pub p_exit_status : ℕ

-- The kernel's variables and the memory: `current` is the index of the running descriptor, and
-- `mem` the byte at each address.
pub record Kernel : Type 0 where
  pub proc_array : ℕ → Process
  pub current : ℕ
  pub mem : ℕ → ℕ

abbrev pub nprocs : ℕ
nprocs = 16

abbrev pub proc1_stack_addr : ℕ
proc1_stack_addr = 0x280000

abbrev pub proc_stack_size : ℕ
proc_stack_size = 0x040000

-- (uint32_t) -1
abbrev pub minus_one : ℕ
minus_one = 2 ^ 32 - 1

abbrev pub zero_registers : Registers
zero_registers = record {
  reg_eax = 0;
  reg_esp = 0;
  reg_eip = 0;
  reg_intno = 0;
  reg_cs = 0;
  reg_ds = 0;
  reg_es = 0;
  reg_ss = 0;
  others = [];
}

-- `proc_array[i].f = …`
abbrev pub set_proc : ℕ → Process → Kernel → Kernel
set_proc i p k = record k { proc_array = update k.proc_array i p }

abbrev pub set_state : ℕ → ProcState → Kernel → Kernel
set_state i s k = set_proc i (record (k.proc_array i) { p_state = s }) k

abbrev pub with_eax : ℕ → Process → Process
with_eax v p = record p { p_registers = record (p.p_registers) { reg_eax = v } }

abbrev pub set_eax : ℕ → ℕ → Kernel → Kernel
set_eax i v k = set_proc i (with_eax v (k.proc_array i)) k

-- How the kernel leaves an interrupt: it runs the process `current`, or it loops for ever.
pub data Outcome : Type 0 where
  running : Kernel → Outcome
  spinning : Kernel → Outcome

abbrev pub final : Outcome → Kernel
final (running k) = k
final (spinning k) = k

-- `run` of x86.c: the registers of `current` are reloaded and control leaves the kernel.
abbrev pub run : ℕ → Kernel → Outcome
run pid k = running (record k { current = pid })
