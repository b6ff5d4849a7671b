-- ===== src/Memos/Handler/Alloc.antt =====
-- INT_SYS_PAGE_ALLOC of OS/WeensyOS/MemOS/kernel.c.
use code_snippet.Prelude.{
  ℕ, ◌-◌, ◌*◌, ◌%◌, ◌≤◌, ◌<◌, ◌≡◌, ◌≢◌, refl, ◌∙◌, ap, arith, Option, none, some, false, ltb, leb,
}
use code_snippet.Memos.Paging.{pagesize, can_map, virtual_memory_map, memsize_virtual, pte_pwu}
use code_snippet.Memos.Pages.{Pages, po_free, set_info, npages, find_free_physic_page}
use code_snippet.Memos.Pages.Owners.{owner_of, found, full, find_free_physic_page-Allocates}
use code_snippet.Memos.Kernel.{Kernel, Outcome, panics, current_proc, proc_start_addr}
use code_snippet.Memos.Handler.{alloc_page, sys_page_alloc}

-- Process addresses from PROC_START_ADDR to the stack page.
abbrev pub InRange : ℕ → Type 0
InRange addr = (1048576 ≤ addr) × (addr < 3141632)

abbrev pub wanted : Kernel → ℕ
wanted k = (current_proc k).p_registers.reg_eax

alloc-in :
    (k : Kernel)
    → InRange (wanted k)
    → sys_page_alloc k
      ≡ alloc_page (wanted k) k (find_free_physic_page (current_proc k).p_pid k.pages)
unfolding sys_page_alloc
alloc-in k r =
    let low : ltb (wanted k) proc_start_addr ≡ false = ground (arith, r) in
    let high : leb (memsize_virtual - pagesize) (wanted k) ≡ false = ground (arith, r) in
    rw (sys_page_alloc, low, high) refl

alloc-found :
    (k : Kernel) (f : Option ℕ × Pages) (r : Outcome)
    → InRange (wanted k)
    → find_free_physic_page (current_proc k).p_pid k.pages ≡ f
    → alloc_page (wanted k) k f ≡ r
    → sys_page_alloc k ≡ r
alloc-found k f r i e a = alloc-in k i ∙ ap (λ z. alloc_page (wanted k) k z) e ∙ a

unaligned-fails :
    (pagetable va pa perm : ℕ) (mem : ℕ → ℕ → ℕ)
    → va % 4096 ≢ 0
    → virtual_memory_map pagetable va pa pagesize perm mem ≡ none
unfolding virtual_memory_map can_map
unaligned-fails pagetable va pa perm mem ne = ground (arith, ne)

-- A process that asks for a page at an address that is in range but not on a page boundary makes the kernel
-- panic, when any page is free.
pub page_alloc_unaligned_panics :
    (k : Kernel) (q : ℕ)
    → InRange (wanted k)
    → wanted k % 4096 ≢ 0
    → q < npages
    → owner_of k.pages q ≡ po_free
    → (k' : Kernel) × (sys_page_alloc k ≡ panics k')
unfolding alloc_page
page_alloc_unaligned_panics k q i ne l free =
    elim (find_free_physic_page-Allocates (current_proc k).p_pid k.pages) [
      | full none_free e ↦ absurd (none_free q l free)
      | found p lp fp e ↦
          (let s = set_info p (record { owner = (current_proc k).p_pid; refcount = 1 }) k.pages in
            (
              record k { pages = s },
              alloc-found k (some (p * 4096), s) (panics (record k { pages = s })) i e
                  (rw
                    (
                      alloc_page,
                      unaligned-fails (current_proc k).p_pagetable (wanted k) (p * 4096) pte_pwu
                          s.memory ne,
                    )
                    refl),
            ))
    ]
