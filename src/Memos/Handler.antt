-- ===== src/Memos/Handler.antt =====
-- The system calls and the exception handler of OS/WeensyOS/MemOS/kernel.c.
pub mod Exiting
pub mod Alloc
use code_snippet.Prelude.{
  ℕ, zero, suc, ◌+◌, ◌-◌, ◌/◌, ◌%◌, Option, none, some, Bool, true, false, ◌==◌, ltb, leb, not,
  ◌&&◌, ◌||◌, if◌then◌else◌,
}
use code_snippet.Memos.Paging.{
  pagesize, memsize_virtual, minus_one, pagenumber, pte_addr, entry, has_p, pte_pwu,
  virtual_memory_map,
}
use code_snippet.Memos.Pages.{Pages, po_kernel, npages, find_free_physic_page, is_referenced}
use code_snippet.Memos.Kernel.{
  ProcState, p_free, p_broken, Registers, Proc, Kernel, Outcome, panics, is_free, is_runnable,
  nproc, proc_start_addr, set_proc, current_proc, answer, set_state, run, schedule, release_tables,
  fork,
}

-- The end of the handler.
unfoldable pub resume : Kernel → Outcome
resume k = if is_runnable (current_proc k).p_state then run k.current k else schedule k

-- INT_SYS_EXIT
unfoldable pub sys_exit : Kernel → Outcome
sys_exit k =
    let p = current_proc k in
    schedule (set_state p_free (record k { pages = release_tables p.p_pid p.p_pagetable k.pages }))

-- The rest of INT_SYS_PAGE_ALLOC once a page has been looked for.
unfoldable pub alloc_page : ℕ → Kernel → Option ℕ × Pages → Outcome
alloc_page addr k (none, s) = resume (answer minus_one k)
alloc_page addr k (some freepage, s) =
    elim (virtual_memory_map (current_proc k).p_pagetable addr freepage pagesize pte_pwu s.memory) [
      | none ↦ panics (record k { pages = s })
      | some mem ↦ resume (answer 1 (record k { pages = record s { memory = mem } }))
    ]

-- INT_SYS_PAGE_ALLOC
unfoldable pub sys_page_alloc : Kernel → Outcome
sys_page_alloc k =
    let addr = (current_proc k).p_registers.reg_eax in
    if ltb addr proc_start_addr || leb (memsize_virtual - pagesize) addr
    then resume (answer minus_one k)
    else alloc_page addr k (find_free_physic_page (current_proc k).p_pid k.pages)

-- INT_SYS_FORK
unfoldable pub sys_fork : Kernel → Outcome
sys_fork k = elim (fork k) [ none ↦ panics k | some r ↦ resume (answer r.0 r.1) ]

-- A test at every number below `n`.
unfoldable pub all_below : ℕ → (ℕ → Bool) → Bool
all_below zero p = true
all_below (suc n) p = p n && all_below n p

unfoldable pub count_below : ℕ → (ℕ → Bool) → ℕ
count_below zero p = 0
count_below (suc n) p = (if p n then 1 else 0) + count_below n p

-- The assertions of `virtual_memory_check` on one page table.
unfoldable pub check_pagetable : ℕ → ℕ → ℕ → Pages → Bool
check_pagetable pagetable expected_owner expected_refcount s =
    pte_addr pagetable == pagetable
    && ltb (pagenumber pagetable) npages
    && (s.pageinfo (pagenumber pagetable)).owner == expected_owner
    && (s.pageinfo (pagenumber pagetable)).refcount == expected_refcount
    && all_below 1024 (λ pn.
      not (has_p (entry s.memory pagetable pn))
      || (ltb (pagenumber (entry s.memory pagetable pn)) npages
          && (s.pageinfo (pagenumber (entry s.memory pagetable pn))).owner == expected_owner
          && (s.pageinfo (pagenumber (entry s.memory pagetable pn))).refcount == 1))

unfoldable pub expected_kernel_refcount : Kernel → ℕ
expected_kernel_refcount k =
    1
    + count_below nproc (λ pid.
      not (is_free (k.processes pid).p_state)
      && (k.processes pid).p_pagetable == k.kernel_pagetable)

unfoldable pub check_process : Kernel → ℕ → Bool
check_process k pid =
    is_free (k.processes pid).p_state
    || (if (k.processes pid).p_pagetable == k.kernel_pagetable
        then check_pagetable k.kernel_pagetable po_kernel (expected_kernel_refcount k) k.pages
        else check_pagetable (k.processes pid).p_pagetable pid 1 k.pages)

-- Its last loop: each page in use with an owner from 0 on belongs to a process that is there.
unfoldable pub check_owner : Kernel → ℕ → Bool
check_owner k pn =
    not (is_referenced (k.pages.pageinfo pn).refcount && ltb (k.pages.pageinfo pn).owner 128)
    || not (is_free (k.processes (k.pages.pageinfo pn).owner).p_state)

unfoldable pub virtual_memory_check : Kernel → Bool
virtual_memory_check k =
    is_free (k.processes 0).p_state
    && check_pagetable k.kernel_pagetable po_kernel (expected_kernel_refcount k) k.pages
    && all_below nproc (check_process k)
    && all_below npages (check_owner k)

-- The switch. Its default, like INT_SYS_PANIC, panics.
unfoldable pub dispatch : Registers → Kernel → Outcome
dispatch reg k =
    if reg.reg_intno == 49
    then resume (answer (current_proc k).p_pid k)
    else if reg.reg_intno == 50
    then schedule k
    else if reg.reg_intno == 53
    then sys_exit k
    else if reg.reg_intno == 51
    then sys_page_alloc k
    else if reg.reg_intno == 52
    then sys_fork k
    else if reg.reg_intno == 32
    then schedule (record k { ticks = (k.ticks + 1) % 4294967296 })
    else if reg.reg_intno == 14
    then (if (reg.reg_err / 4) % 2 == 1 then resume (set_state p_broken k) else panics k)
    else panics k

-- The whole handler: the registers are saved, and the invariants are checked but on a kernel fault.
unfoldable pub exception : Registers → Kernel → Outcome
exception reg k =
    let k1 = set_proc k.current (record (current_proc k) { p_registers = reg }) k in
    if (not (reg.reg_intno == 14) || (reg.reg_err / 4) % 2 == 1) && not (virtual_memory_check k1)
    then panics k1
    else dispatch reg k1
