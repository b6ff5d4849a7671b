-- ===== src/Memos/Kernel.antt =====
-- The processes, the scheduler and the exception handler of OS/WeensyOS/MemOS/kernel.c.
pub mod Forking
pub mod Copying
pub mod Fork
pub mod Steps
pub mod Child
use code_snippet.Prelude.{
  ℕ, zero, suc, ◌+◌, ◌-◌, ◌*◌, ◌/◌, ◌%◌, Option, none, some, Bool, true, false, ◌==◌, ltb, leb, not,
  ◌&&◌, ◌||◌, if◌then◌else◌, update,
}
use code_snippet.Memos.Paging.{
  Memory, Vamapping, pagesize, memsize_virtual, minus_one, pagenumber, pte_addr, entry, has_p,
  has_u, pte_pwu, virtual_memory_map, virtual_memory_lookup,
}
use code_snippet.Memos.Pages.{
  PageInfo, Pages, po_kernel, npages, set_info, find_free_physic_page, copy_page, copy_pagetable,
  is_referenced, release_page, release_pagetable,
}

-- `procstate_t`
pub data ProcState : Type 0 where
  p_free : ProcState
  p_runnable : ProcState
  p_blocked : ProcState
  p_broken : ProcState

abbrev pub is_free : ProcState → Bool
is_free p_free = true
is_free p_runnable = false
is_free p_blocked = false
is_free p_broken = false

abbrev pub is_runnable : ProcState → Bool
is_runnable p_free = false
is_runnable p_runnable = true
is_runnable p_blocked = false
is_runnable p_broken = false

-- `x86_registers`, with the registers that the kernel does not touch in `reg_others`.
pub record Registers : Type 0 where
  pub reg_eax : ℕ
  pub reg_esp : ℕ
  pub reg_intno : ℕ
  pub reg_err : ℕ
  pub reg_others : ℕ → ℕ

-- `proc`
pub record Proc : Type 0 where
  pub p_pid : ℕ
  pub p_registers : Registers
  pub p_state : ProcState
  pub p_pagetable : ℕ

pub record Kernel : Type 0 where
  pub pages : Pages
  pub processes : ℕ → Proc
  pub current : ℕ
  pub ticks : ℕ
  pub kernel_pagetable : ℕ

abbrev pub nproc : ℕ
nproc = 16

abbrev pub proc_start_addr : ℕ
proc_start_addr = 1048576

-- Where the kernel goes: it runs a process, it looks for one forever, or it panics.
pub data Outcome : Type 0 where
  runs : ℕ → Kernel → Outcome
  spins : Kernel → Outcome
  panics : Kernel → Outcome

abbrev pub set_proc : ℕ → Proc → Kernel → Kernel
set_proc i p k = record k { processes = update k.processes i p }

abbrev pub set_eax : ℕ → Proc → Proc
set_eax v p = record p { p_registers = record p.p_registers { reg_eax = v } }

-- assert, then current = p; the new page table and the registers are loaded by the hardware.
unfoldable pub run : ℕ → Kernel → Outcome
run i k =
    if is_runnable (k.processes i).p_state then runs i (record k { current = i }) else panics k

-- With `rounds` rounds left; when they are used up no process can run.
unfoldable pub schedule_loop : ℕ → ℕ → Kernel → Outcome
schedule_loop zero pid k = spins k
schedule_loop (suc rounds) pid k =
    let next = (pid + 1) % nproc in
    let rest = schedule_loop rounds next k in
    if is_runnable (k.processes next).p_state then run next k else rest

unfoldable pub schedule : Kernel → Outcome
schedule k = schedule_loop nproc (k.processes k.current).p_pid k

abbrev pub is_page_readable : ℕ → Bool
is_page_readable perm = has_p perm && has_u perm

abbrev pub is_page_writable : ℕ → Bool
is_page_writable perm = perm % 8 == pte_pwu

abbrev pub referenced_again : PageInfo → PageInfo
referenced_again i = record i { refcount = (i.refcount + 1) % 256 }

-- The new page is mapped at `va` and filled. `none` is a failed assertion; the Boolean is `false` if there
-- is no page.
unfoldable pub give_page : ℕ → ℕ → Vamapping → Option ℕ × Pages → Option (Bool × Pages)
give_page va new_table vam (none, s) = some (false, s)
give_page va new_table vam (some newpage, s) =
    elim (virtual_memory_map new_table va newpage pagesize vam.perm s.memory) [
      | none ↦ none
      | some mem ↦ some (true, copy_page newpage vam.pa (record s { memory = mem }))
    ]

-- One round of the loop at `va`, on what the lookup says.
unfoldable pub copy_one_mapping : ℕ → ℕ → ℕ → Vamapping → Pages → Option (Bool × Pages)
copy_one_mapping va newpid new_table vam s =
    let shared =
      if is_page_readable vam.perm
      then set_info vam.pn (referenced_again (s.pageinfo vam.pn)) s
      else s in
    let given = give_page va new_table vam (find_free_physic_page newpid s) in
    if is_page_writable vam.perm then given else some (true, shared)

unfoldable pub copy_one_page : ℕ → ℕ → ℕ → ℕ → Pages → Option (Bool × Pages)
copy_one_page va newpid new_table old_table s =
    copy_one_mapping va newpid new_table (virtual_memory_lookup s.memory old_table va) s

-- The loop with `rounds` pages to go.
unfoldable pub copy_pages : ℕ → ℕ → ℕ → ℕ → ℕ → Pages → Option (Bool × Pages)
copy_pages zero va newpid new_table old_table s = some (true, s)
copy_pages (suc rounds) va newpid new_table old_table s =
    elim (copy_one_page va newpid new_table old_table s) [
      | none ↦ none
      | some r ↦ elim r.0 [
        | true ↦ copy_pages rounds (va + pagesize) newpid new_table old_table r.1
        | false ↦ some (false, r.1)
      ]
    ]

unfoldable pub copy_writable_page : ℕ → ℕ → ℕ → ℕ → Kernel → Option (Bool × Pages)
copy_writable_page va_begin va_end newpid oldpid k =
    copy_pages ((va_end - va_begin + 4095) / pagesize) va_begin newpid
      (k.processes newpid).p_pagetable (k.processes oldpid).p_pagetable k.pages

-- The loop over the descriptors from `pid` on.
unfoldable pub free_slot_from : ℕ → ℕ → Kernel → Option ℕ
free_slot_from zero pid k = none
free_slot_from (suc rounds) pid k =
    let rest = free_slot_from rounds (pid + 1) k in
    if is_free (k.processes pid).p_state then some pid else rest

-- release_pagetable of the level-2 table and release_page of the level-1 table of process `pid`.
abbrev pub release_tables : ℕ → ℕ → Pages → Pages
release_tables pid pagetable s =
    release_page pid pagetable (release_pagetable pid (pte_addr (entry s.memory pagetable 0)) s)

abbrev pub give_pagetable : ℕ → ℕ → Pages → Kernel → Kernel
give_pagetable pid table s k =
    set_proc pid (record (k.processes pid) { p_pagetable = table }) (record k { pages = s })

-- The child starts as its parent, with 0 in eax.
abbrev pub start_child : ℕ → Pages → Kernel → Kernel
start_child pid s k =
    set_proc pid
      (record (k.processes pid) {
        p_registers = record (k.processes k.current).p_registers { reg_eax = 0 };
        p_state = p_runnable;
      })
      (record k { pages = s })

-- The end of fork, on what the copy returned.
unfoldable pub fork_end : ℕ → ℕ → Kernel → Option (Bool × Pages) → Option (ℕ × Kernel)
fork_end pid table k1 none = none
fork_end pid table k1 (some (true, s)) = some (pid, start_child pid s k1)
fork_end pid table k1 (some (false, s)) =
    some (minus_one, record k1 { pages = release_tables pid table s })

-- The copy into slot `pid` with the page table that was made. When there is none, the code reads entry 0 of
-- the table at -1, which faults in the kernel: `none`, as for a failed assertion.
unfoldable pub fork_with : ℕ → Kernel → Option ℕ × Pages → Option (ℕ × Kernel)
fork_with pid k (none, s) = none
fork_with pid k (some table, s) =
    let k1 = give_pagetable pid table s k in
    fork_end pid table k1
      (copy_writable_page proc_start_addr memsize_virtual pid (k.processes k.current).p_pid k1)

unfoldable pub fork_into : ℕ → Kernel → Option (ℕ × Kernel)
fork_into pid k = fork_with pid k (copy_pagetable (k.processes k.current).p_pagetable pid k.pages)

-- The result is the child's number, or -1.
unfoldable pub fork : Kernel → Option (ℕ × Kernel)
fork k = elim (free_slot_from 15 1 k) [ none ↦ some (minus_one, k) | some pid ↦ fork_into pid k ]

abbrev pub current_proc : Kernel → Proc
current_proc k = k.processes k.current

-- current->p_registers.reg_eax = v
abbrev pub answer : ℕ → Kernel → Kernel
answer v k = set_proc k.current (set_eax v (current_proc k)) k

abbrev pub set_state : ProcState → Kernel → Kernel
set_state st k = set_proc k.current (record (current_proc k) { p_state = st }) k
