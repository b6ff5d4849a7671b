-- ===== src/Memos/Paging.antt =====
-- The page tables of OS/WeensyOS/MemOS, from x86.h and k-hardware.c. Physical memory is a function of the
-- page number and of the index of a 32-bit word in the page, and the kernel reaches it under the same
-- addresses. `none` is a failed assertion.
pub mod Mapping
use code_snippet.Prelude.{
  ℕ, zero, suc, ◌+◌, ◌-◌, ◌*◌, ◌/◌, ◌%◌, Option, none, some, Bool, true, false, ◌==◌, ltb, leb, not,
  ◌&&◌, ◌||◌, if◌then◌else◌, update,
}

abbrev pub Memory : Type 0
Memory = ℕ → ℕ → ℕ

abbrev pub pagesize : ℕ
pagesize = 4096

abbrev pub memsize_physical : ℕ
memsize_physical = 2097152

abbrev pub memsize_virtual : ℕ
memsize_virtual = 3145728

-- (uintptr_t) -1
abbrev pub minus_one : ℕ
minus_one = 4294967295

abbrev pub pagenumber : ℕ → ℕ
pagenumber a = a / 4096

abbrev pub pageaddress : ℕ → ℕ
pageaddress pn = pn * 4096

abbrev pub l1_page_index : ℕ → ℕ
l1_page_index a = a / 4194304

abbrev pub l2_page_index : ℕ → ℕ
l2_page_index a = (a / 4096) % 1024

abbrev pub page_offset : ℕ → ℕ
page_offset a = a % 4096

abbrev pub pte_addr : ℕ → ℕ
pte_addr e = (e / 4096) * 4096

abbrev pub pte_flags : ℕ → ℕ
pte_flags e = e % 4096

-- e & PTE_P, e & PTE_W and e & PTE_U
abbrev pub has_p : ℕ → Bool
has_p e = e % 2 == 1

abbrev pub has_w : ℕ → Bool
has_w e = (e / 2) % 2 == 1

abbrev pub has_u : ℕ → Bool
has_u e = (e / 4) % 2 == 1

-- PTE_P | PTE_W | PTE_U
abbrev pub pte_pwu : ℕ
pte_pwu = 7

-- pagetable->entry[index] of a table at an aligned address
abbrev pub entry : Memory → ℕ → ℕ → ℕ
entry mem pagetable index = mem (pagenumber pagetable) index

abbrev pub set_entry : ℕ → ℕ → ℕ → Memory → Memory
set_entry pagetable index e mem =
    update mem (pagenumber pagetable) (update (mem (pagenumber pagetable)) index e)

-- The assertions on a level-1 entry, and the level-2 page table that it points to.
unfoldable pub level2 : ℕ → ℕ → Option ℕ
level2 perm l1pte =
    if has_p l1pte
      && ltb (pte_addr l1pte) memsize_virtual
      && (not (has_w perm) || has_w l1pte)
      && (not (has_u perm) || has_u l1pte)
    then some (pte_addr l1pte)
    else none

-- The loop with `pages` pages to go.
unfoldable pub map_loop : ℕ → ℕ → ℕ → ℕ → ℕ → ℕ → ℕ → Memory → Option Memory
map_loop zero pagetable va pa perm l1pageindex l2pagetable mem = some mem
map_loop (suc pages) pagetable va pa perm l1pageindex l2pagetable mem =
    elim (if l1_page_index va == l1pageindex
      then some l2pagetable
      else level2 perm (entry mem pagetable (l1_page_index va))) [
        | none ↦ none
        | some l2 ↦
            map_loop pages pagetable (va + pagesize) (pa + pagesize) perm (l1_page_index va) l2
              (set_entry l2 (l2_page_index va) (if has_p perm then pa + perm else perm) mem)
      ]

-- The assertions before the loop.
unfoldable pub can_map : ℕ → ℕ → ℕ → ℕ → ℕ → Bool
can_map pagetable va pa sz perm =
    va % pagesize == 0
    && sz % pagesize == 0
    && leb (va + sz) 4294967296
    && (not (has_p perm) || (pa % pagesize == 0 && leb (pa + sz) memsize_physical))
    && ltb perm 4096
    && pagetable % pagesize == 0

unfoldable pub virtual_memory_map : ℕ → ℕ → ℕ → ℕ → ℕ → Memory → Option Memory
virtual_memory_map pagetable va pa sz perm mem =
    if can_map pagetable va pa sz perm
    then map_loop (sz / pagesize) pagetable va pa perm minus_one 0 mem
    else none

-- `vamapping`
pub record Vamapping : Type 0 where
  pub pn : ℕ
  pub pa : ℕ
  pub perm : ℕ

-- e & (pe | ~(PTE_W | PTE_U))
abbrev pub allowed : ℕ → ℕ → ℕ
allowed pe e =
    e - (if has_w e && not (has_w pe) then 2 else 0) - (if has_u e && not (has_u pe) then 4 else 0)

unfoldable pub through : ℕ → ℕ → ℕ
through l1 e = if has_p l1 then allowed l1 e else l1

-- `pe` after the two levels.
unfoldable pub walk : Memory → ℕ → ℕ → ℕ
walk mem pagetable va =
    let l1 = entry mem pagetable (l1_page_index va) in
    through l1 (entry mem (pte_addr l1) (l2_page_index va))

unfoldable pub mapping_of : ℕ → ℕ → Vamapping
mapping_of pe va =
    if has_p pe
    then record { pn = pagenumber pe; pa = pte_addr pe + page_offset va; perm = pte_flags pe }
    else record { pn = minus_one; pa = minus_one; perm = 0 }

unfoldable pub virtual_memory_lookup : Memory → ℕ → ℕ → Vamapping
virtual_memory_lookup mem pagetable va = mapping_of (walk mem pagetable va) va
