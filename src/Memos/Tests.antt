-- ===== src/Memos/Tests.antt =====
-- A kernel with one process, and the theorems on OS/WeensyOS/MemOS/kernel.c applied to it.
use code_snippet.Prelude.{ℕ, ◌+◌, ◌*◌, ◌≡◌, ◌==◌, ltb, if◌then◌else◌, refl, arith, some, false}
use code_snippet.Memos.Paging.{Memory, virtual_memory_map, virtual_memory_lookup}
use code_snippet.Memos.Paging.Mapping.{HasLevel2, lookup-map}
use code_snippet.Memos.Pages.{PageInfo, po_free, find_free_physic_page, find_free_from}
use code_snippet.Memos.Pages.Owners.{owner_of}
use code_snippet.Memos.Kernel.{
  Proc, p_free, p_runnable, Kernel, panics, fork, free_slot_from, schedule,
}
use code_snippet.Memos.Handler.{sys_exit, sys_page_alloc, virtual_memory_check}
use code_snippet.Memos.Kernel.Fork.{Parent}
use code_snippet.Memos.Kernel.Child.{Forked, fork-Forked}
use code_snippet.Memos.Handler.Exiting.{exit_frees, exit_strands_shared_page}
use code_snippet.Memos.Handler.Alloc.{page_alloc_unaligned_panics}

-- Page 10 is the process' page table and page 11 its level-2 table; page 20 is writable, page 21 is not.
abbrev memory : Memory
memory p i =
    if p == 10
    then (if i == 0 then 45063 else 0)
    else if p == 11
    then (if i == 256 then 81927 else if i == 257 then 86021 else 0)
    else p + i

-- Two processes refer to page 21.
abbrev info : ℕ → PageInfo
info p =
    if ltb p 10
    then record { owner = 254; refcount = 1 }
    else if p == 10
    then record { owner = 1; refcount = 1 }
    else if p == 11
    then record { owner = 1; refcount = 1 }
    else if p == 20
    then record { owner = 1; refcount = 1 }
    else if p == 21
    then record { owner = 1; refcount = 2 }
    else record { owner = 0; refcount = 0 }

abbrev proc : ℕ → ℕ → Proc
proc eax i = record {
  p_pid = i;
  p_registers = record {
    reg_eax = eax;
    reg_esp = 0;
    reg_intno = 0;
    reg_err = 0;
    reg_others = λ r. 0;
  };
  p_state = if i == 1 then p_runnable else p_free;
  p_pagetable = if i == 1 then 40960 else 0;
}

abbrev machine : ℕ → Kernel
machine eax = record {
  pages = record { pageinfo = info; memory = memory };
  processes = proc eax;
  current = 1;
  ticks = 0;
  kernel_pagetable = 4096;
}

tables-HasLevel2 : HasLevel2 memory 40960 11
tables-HasLevel2 = record {
  aligned = refl;
  at = refl;
  flags = refl;
  low = omega arith;
  apart = omega arith;
}

lowest_free : (find_free_physic_page 1 (machine 0).pages).0 ≡ some 49152
unfolding find_free_physic_page find_free_from
lowest_free = refl

lookup-map_example :
    (mem' : Memory) × (virtual_memory_map 40960 (300 * 4096) (40 * 4096) 4096 5 memory ≡ some mem')
    × (virtual_memory_lookup mem' 40960 (300 * 4096) ≡ record { pn = 40; pa = 40 * 4096; perm = 5 })
    × (virtual_memory_lookup mem' 40960 (256 * 4096)
        ≡ virtual_memory_lookup memory 40960 (256 * 4096))
lookup-map_example =
    lookup-map memory 40960 11 300 40 5 256 tables-HasLevel2 (omega arith) (omega arith)
      (omega arith) refl (omega arith) (omega arith)

machine-Parent : Parent (machine 0).pages 40960 11
machine-Parent = record {
  tables = tables-HasLevel2;
  old_used = ground arith;
  t_used = ground arith;
  sources = λ j h. ground (arith, h);
}

fork-Forked_example : Forked (machine 0) 2 11 256 (fork (machine 0))
unfolding free_slot_from
fork-Forked_example =
    fork-Forked (machine 0) 2 11 256 refl refl refl machine-Parent (omega arith) (omega arith)

exit_frees_example :
    (k' : Kernel) × (sys_exit (machine 0) ≡ schedule k')
    × (owner_of k'.pages 20 ≡ po_free)
    × ((k'.processes 1).p_state ≡ p_free)
exit_frees_example = exit_frees (machine 0) 20 256 (omega arith) (omega arith) refl refl

exit_strands_shared_page_example :
    (k' : Kernel) × (sys_exit (machine 0) ≡ schedule k')
    × (k'.pages.pageinfo 21 ≡ record { owner = 1; refcount = 1 })
    × (virtual_memory_check k' ≡ false)
exit_strands_shared_page_example =
    exit_strands_shared_page (machine 0) 21 257 (omega arith) (omega arith) refl
      (λ i a b ne. ground (arith, ne)) (omega arith) (omega arith) (omega arith) refl (omega arith)
      refl

page_alloc_unaligned_panics_example : (k' : Kernel) × (sys_page_alloc (machine 2097153) ≡ panics k')
page_alloc_unaligned_panics_example =
    page_alloc_unaligned_panics (machine 2097153) 30 (omega arith, omega arith) (omega arith)
      (omega arith) refl
