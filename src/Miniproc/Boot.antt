-- ===== src/Miniproc/Boot.antt =====
-- `start` of OS/WeensyOS/MiniprocOS/kernel.c, with `special_registers_init` of x86.c.
use code_snippet.Prelude.{
  ℕ, zero, suc, ◌+◌, ◌-◌, ◌<◌, ◌≡◌, refl, List, [], ◌∷◌, Option, none, some, ◌==◌, ◌||◌, ◌&&◌, ltb,
  leb, ◌⊎◌, ◌≢◌, arith, if◌then◌else◌, for_range, ap,
}
use mathlib.Core.Option
use code_snippet.Miniproc.Machine.{
  Kernel, Process, Registers, Outcome, running, empty, runnable, zero_registers, nprocs,
  proc1_stack_addr, proc_stack_size, set_proc, run, final,
}
use code_snippet.Miniproc.Schedule.{RunnableAt}
use code_snippet.Miniproc.Invariant.{IsValid}

-- The bytes of the descriptor after `memset(proc_array, 0, sizeof(proc_array))`.
abbrev zero_process : Process
zero_process = record {
  waiting_q = λ j. 0;
  p_pid = 0;
  p_registers = zero_registers;
  p_state = empty;
  p_exit_status = 0;
}

-- The body of the loop over the descriptors.
abbrev init_process : ℕ → Kernel → Kernel
init_process i k =
    set_proc i (record (k.proc_array i) { p_pid = i; p_state = empty; waiting_q = λ j. 0 }) k

-- SEGSEL_APP_CODE | 3 and SEGSEL_APP_DATA | 3
abbrev special_registers_init : Registers
special_registers_init = record zero_registers {
  reg_cs = 0x1b;
  reg_ds = 0x23;
  reg_es = 0x23;
  reg_ss = 0x23;
}

-- The digits that `console_read_digit` returns, in order, up to the first that names a program. `none`
-- stands for a loop that still waits after the last one given.
unfoldable pub read_program : List ℕ → Option ℕ
read_program [] = none
read_program (d ∷ ds) =
    let rest = read_program ds in if d == 1 || (d == 2 || d == 3) then some d else rest

-- `loader n` is what `program_loader(n, &eip)` of k-loader.c leaves: the entry point and the memory.
module _ (loader : ℕ → (ℕ → ℕ) → ℕ × (ℕ → ℕ)) where
  unfoldable pub boot : ℕ → Kernel → Outcome
  boot whichprocess k0 =
      let k1 =
        for_range nprocs 0 init_process
          (record k0 { proc_array = λ i. zero_process; current = 1 }) in
      let k2 = set_proc 1 (record (k1.proc_array 1) { p_registers = special_registers_init }) k1 in
      let (entry, mem) = loader (whichprocess - 1) k2.mem in
      run 1
        (record (set_proc 1
          (record (k2.proc_array 1) {
            p_registers = record special_registers_init {
              reg_eip = entry;
              reg_esp = proc1_stack_addr + proc_stack_size;
            };
            p_state = runnable;
          })
          k2) { mem = mem })

  unfoldable pub start : List ℕ → Kernel → Option Outcome
  start digits k = Option.map (λ n. boot n k) (read_program digits)

-- The loop writes the descriptors from `i` on, one in each round.
init_processes :
    (n i j : ℕ) (k : Kernel)
    → let after = for_range n i init_process k in
      (after.proc_array j ≡ (
        if leb i j && ltb j (i + n)
        then record (k.proc_array j) { p_pid = j; p_state = empty; waiting_q = λ q. 0 }
        else k.proc_array j))
      × (after.mem ≡ k.mem)
      × (after.current ≡ k.current)
unfolding for_range
init_processes zero i j k = (ground arith, refl, refl)
init_processes (suc n) i j k =
    let ih = init_processes n (i + 1) j (init_process i k) in (ground (arith, ih.0), ih.1, ih.2)

read_program-range :
    (ds : List ℕ) {n : ℕ} → read_program ds ≡ some n → (n ≡ 1) ⊎ ((n ≡ 2) ⊎ (n ≡ 3))
unfolding read_program
read_program-range [] h = cc
read_program-range (d ∷ ds) {n} h = ground (arith, read_program-range ds {n = n})

-- Once 1, 2 or 3 has been typed, the kernel runs process 1 in a well-formed table in which every
-- other slot is empty: with the entry point of the program before that digit (programs are numbered
-- from 0), and an empty stack.
pub start_runs_first :
    (loader : ℕ → (ℕ → ℕ) → ℕ × (ℕ → ℕ)) (digits : List ℕ) (k : Kernel) (n : ℕ)
    → read_program digits ≡ some n
    → let after = final (boot loader n k) in
      (start loader digits k ≡ some (running after))
      × IsValid after
      × RunnableAt after 1
      × (after.current ≡ 1)
      × ((after.proc_array 1).p_registers.reg_eip ≡ (loader (n - 1) k.mem).0)
      × ((after.proc_array 1).p_registers.reg_esp ≡ 0x2C0000)
      × (after.mem ≡ (loader (n - 1) k.mem).1)
      × ((j : ℕ) → j < nprocs → j ≢ 1 → (after.proc_array j).p_state ≡ empty)
      × ((n ≡ 1) ⊎ ((n ≡ 2) ⊎ (n ≡ 3)))
unfolding start boot
start_runs_first loader digits k n e = (
  rw e refl,
  record {
    pids = λ j l. ground (arith, (loop j).0, (loop 1).0);
    reserved = ground (arith, (loop 0).0);
    current_pos = omega arith;
    current_in = omega arith;
  },
  refl,
  refl,
  ap (λ m. (loader (n - 1) m).0) (loop 1).1,
  refl,
  ap (λ m. (loader (n - 1) m).1) (loop 1).1,
  (λ j l ne. ground (arith, (loop j).0)),
  read_program-range digits e,
)
  where
    loop :
        (j : ℕ)
        → let k0 = record k { proc_array = λ i. zero_process; current = 1 } in
          let k1 = for_range nprocs 0 init_process k0 in
          (k1.proc_array j ≡ (
            if leb 0 j && ltb j 16
            then record zero_process { p_pid = j; p_state = empty; waiting_q = λ q. 0 }
            else zero_process))
          × (k1.mem ≡ k.mem)
          × (k1.current ≡ 1)
    loop j = init_processes nprocs 0 j _
