-- ===== src/Memos/Pages.antt =====
-- The physical pages of OS/WeensyOS/MemOS/kernel.c and their owners.
pub mod Counting
pub mod Owners
pub mod Release
use code_snippet.Prelude.{
  ℕ, zero, suc, ◌+◌, ◌-◌, ◌*◌, ◌/◌, ◌%◌, Option, none, some, Bool, true, false, ◌==◌, ltb, leb, not,
  ◌&&◌, ◌||◌, if◌then◌else◌, update, for_range,
}
use code_snippet.Memos.Paging.{
  Memory, pagesize, memsize_physical, pagenumber, pageaddress, page_offset, pte_addr, pte_flags,
  entry, set_entry,
}

-- `physical_pageinfo`. Both fields are bytes that hold an int8_t: -1 is 255 and -2 is 254.
pub record PageInfo : Type 0 where
  pub owner : ℕ
  pub refcount : ℕ

abbrev pub po_free : ℕ
po_free = 0

abbrev pub po_reserved : ℕ
po_reserved = 255

abbrev pub po_kernel : ℕ
po_kernel = 254

-- The pages: `pageinfo` and the physical memory.
pub record Pages : Type 0 where
  pub pageinfo : ℕ → PageInfo
  pub memory : Memory

abbrev pub npages : ℕ
npages = 512

abbrev pub set_info : ℕ → PageInfo → Pages → Pages
set_info pn i s = record s { pageinfo = update s.pageinfo pn i }

-- The loop from page `i` on: the number of the first free page.
unfoldable pub find_free_from : ℕ → ℕ → Pages → Option ℕ
find_free_from zero i s = none
find_free_from (suc rounds) i s =
    let rest = find_free_from rounds (i + 1) s in
    if (s.pageinfo i).owner == po_free then some i else rest

-- The address, or `none` for (uintptr_t) -1.
unfoldable pub find_free_physic_page : ℕ → Pages → Option ℕ × Pages
find_free_physic_page owner s = elim (find_free_from npages 0 s) [
  | none ↦ (none, s)
  | some i ↦ (some (pageaddress i), set_info i (record { owner = owner; refcount = 1 }) s)
]

-- memset(page, 0, PAGESIZE) and memcpy of a page, at aligned addresses.
abbrev pub clear_page : ℕ → Pages → Pages
clear_page page s = record s { memory = update s.memory (pagenumber page) (λ i. 0) }

abbrev pub copy_page : ℕ → ℕ → Pages → Pages
copy_page dst src s = record s {
  memory = update s.memory (pagenumber dst) (s.memory (pagenumber src));
}

-- The writes of `copy_pagetable`; the entry is the new table's address and the old entry's flags.
unfoldable pub fill_pagetable : ℕ → ℕ → ℕ → Pages → Pages
fill_pagetable pagedir newpagedir newpagetable s =
    let s1 = clear_page newpagedir s in
    let s2 = record s1 {
      memory =
          set_entry newpagedir 0 (newpagetable + pte_flags (entry s1.memory pagedir 0)) s1.memory;
    } in
    copy_page newpagetable (pte_addr (entry s2.memory pagedir 0)) s2

-- `copy_pagetable` from its second and from its first allocation on.
unfoldable pub second_table : ℕ → ℕ → Option ℕ × Pages → Option ℕ × Pages
second_table pagedir newpagedir (none, s) = (none, s)
second_table pagedir newpagedir (some newpagetable, s) =
    (some newpagedir, fill_pagetable pagedir newpagedir newpagetable s)

unfoldable pub first_table : ℕ → ℕ → Option ℕ × Pages → Option ℕ × Pages
first_table pagedir owner (none, s) = (none, s)
first_table pagedir owner (some newpagedir, s) =
    second_table pagedir newpagedir (find_free_physic_page owner s)

unfoldable pub copy_pagetable : ℕ → ℕ → Pages → Option ℕ × Pages
copy_pagetable pagedir owner s = first_table pagedir owner (find_free_physic_page owner s)

-- `true` is the result 0, and `false` the result -1.
unfoldable pub physical_page_alloc : ℕ → ℕ → Pages → Bool × Pages
physical_page_alloc addr owner s =
    if not (page_offset addr == 0)
      || leb memsize_physical addr
      || not ((s.pageinfo (pagenumber addr)).refcount == 0)
    then (false, s)
    else (true, set_info (pagenumber addr) (record { owner = owner; refcount = 1 }) s)

-- refcount > 0 on an int8_t
abbrev pub is_referenced : ℕ → Bool
is_referenced r = ltb 0 r && ltb r 128

abbrev pub released : PageInfo → PageInfo
released p = record {
  owner = if p.refcount == 1 then po_free else p.owner;
  refcount = p.refcount - 1;
}

unfoldable pub release_page : ℕ → ℕ → Pages → Pages
release_page owner physic_page_addr s =
    let pn = pagenumber physic_page_addr in
    if (s.pageinfo pn).owner == owner && is_referenced (s.pageinfo pn).refcount
    then set_info pn (released (s.pageinfo pn)) s
    else s

-- The pages from PAGENUMBER(PROC_START_ADDR) to PAGENUMBER(MEMSIZE_VIRTUAL).
unfoldable pub release_pagetable : ℕ → ℕ → Pages → Pages
release_pagetable owner pagetable s =
    release_page owner pagetable
      (for_range 512 256 (λ i t. release_page owner (pte_addr (entry t.memory pagetable i)) t) s)

unfoldable pub physical_memory_isreserved : ℕ → Bool
physical_memory_isreserved pa = pa == 0 || (leb 655360 pa && ltb pa 1048576)

-- What `pageinfo_init` writes for one page; `end` is the linker's.
unfoldable pub initial_info : ℕ → ℕ → PageInfo
initial_info end pn =
    let addr = pageaddress pn in
    let owner =
      if physical_memory_isreserved addr
      then po_reserved
      else if (leb 262144 addr && ltb addr end) || addr == 524288 - pagesize
      then po_kernel
      else po_free in
    record { owner = owner; refcount = if owner == po_free then 0 else 1 }

unfoldable pub pageinfo_init : ℕ → Pages → Pages
pageinfo_init end s = for_range npages 0 (λ pn t. set_info pn (initial_info end pn) t) s
