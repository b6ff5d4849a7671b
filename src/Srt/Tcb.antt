-- ===== src/Srt/Tcb.antt =====
-- The connection blocks of Networks/DartNet/SRT and the lists of common/list.h, on an explicit store.
-- A pointer is a number, and NULL is `none`.
pub mod Effect
pub mod Linked
pub mod Moves
use code_snippet.Prelude.{
  ℕ, zero, suc, ◌+◌, Option, none, some, Bool, true, false, ◌==◌, if◌then◌else◌, update,
}

-- `client_tcb_t` and `svr_tcb_t`: the fields that the code reads or writes.
pub record Tcb : Type 0 where
  pub svr_port_num : ℕ
  pub client_port_num : ℕ
  pub state : ℕ
  pub prev : Option ℕ
  pub next : Option ℕ
  pub is_free : Bool

-- The static variables of the client or of the server, and what their pointers point at.
pub record Store : Type 0 where
  pub tcb : ℕ → Tcb
  pub tcb_used_list : ℕ
  pub tcb_free_list : ℕ
  pub port2sock : ℕ → Option ℕ

abbrev pub max_port_num : ℕ
max_port_num = 65536

abbrev pub write : ℕ → Tcb → Store → Store
write p t s = record s { tcb = update s.tcb p t }

abbrev pub set_next : ℕ → Option ℕ → Store → Store
set_next p q s = write p (record (s.tcb p) { next = q }) s

abbrev pub set_prev : ℕ → Option ℕ → Store → Store
set_prev p q s = write p (record (s.tcb p) { prev = q }) s

abbrev pub set_state : ℕ → ℕ → Store → Store
set_state p v s = write p (record (s.tcb p) { state = v }) s

abbrev pub set_free : ℕ → Bool → Store → Store
set_free p b s = write p (record (s.tcb p) { is_free = b }) s

-- if(q) q->prev = p;
abbrev pub relink : Option ℕ → Option ℕ → Store → Store
relink none p s = s
relink (some q) p s = set_prev q p s

unfoldable pub insert_into_list : ℕ → ℕ → Store → Store
insert_into_list lh new_node s =
    let tcb_node = (s.tcb lh).next in
    let s1 = set_next lh (some new_node) s in
    let s2 = set_next new_node tcb_node s1 in
    let s3 = set_prev new_node (some lh) s2 in relink tcb_node (some new_node) s3

-- `none` is the fault of a node with no predecessor, whose `prev` is dereferenced.
unfoldable pub remove_from_list : ℕ → Store → Option Store
remove_from_list node s = elim (s.tcb node).prev [
  | none ↦ none
  | some p ↦
      (let s1 = set_next p (s.tcb node).next s in
        some (relink (s1.tcb node).next (s1.tcb node).prev s1))
]

-- The loop of `allocTCB` with `n` rounds left; `malloc i` is what the i-th call of malloc(3) returns.
unfoldable pub alloc_from : ℕ → ℕ → (ℕ → Option ℕ) → Store → Store
alloc_from zero i malloc s = s
alloc_from (suc n) i malloc s = elim (malloc i) [
  | none ↦ s
  | some p ↦ alloc_from n (i + 1) malloc (insert_into_list s.tcb_free_list p (set_free p true s))
]

unfoldable pub alloc_tcb : (ℕ → Option ℕ) → Store → Store
alloc_tcb malloc s = alloc_from 10 0 malloc s

-- Takes the first node off a list that has one.
unfoldable pub take_first : ℕ → Store → Option (Option ℕ × Store)
take_first lh s = elim (s.tcb lh).next [
  | none ↦ some (none, s)
  | some node ↦ elim (remove_from_list node s) [ none ↦ none | some s' ↦ some (some node, s') ]
]

abbrev pub is_null : Option ℕ → Bool
is_null none = true
is_null (some p) = false

unfoldable pub take_from_list_head : (ℕ → Option ℕ) → ℕ → Store → Option (Option ℕ × Store)
take_from_list_head malloc lh s =
    let s' =
      if lh == s.tcb_free_list
      then (if is_null (s.tcb lh).next then alloc_tcb malloc s else s)
      else s in
    take_first lh s'
