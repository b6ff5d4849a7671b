-- ===== src/Srt/Tcb/Effect.antt =====
-- What each list operation of common/list.h writes, node by node.
use code_snippet.Prelude.{
  ℕ, ◌≡◌, ◌≢◌, refl, Option, none, some, Bool, false, ◌==◌, if◌then◌else◌, arith,
}
use code_snippet.Srt.Tcb.{
  Tcb, Store, set_next, set_prev, relink, insert_into_list, remove_from_list,
}

-- A pointer that points at node `j`.
abbrev pub points : Option ℕ → ℕ → Bool
points none j = false
points (some p) j = p == j

-- The fields that no list operation writes.
abbrev pub SameBlock : Tcb → Tcb → Type 0
SameBlock t u =
    (t.svr_port_num ≡ u.svr_port_num)
    × (t.client_port_num ≡ u.client_port_num)
    × (t.state ≡ u.state)
    × (t.is_free ≡ u.is_free)

relink-effect :
    (q p : Option ℕ) (s : Store) (j : ℕ)
    → (((relink q p s).tcb j).next ≡ (s.tcb j).next)
      × (((relink q p s).tcb j).prev ≡ (if points q j then p else (s.tcb j).prev))
      × SameBlock ((relink q p s).tcb j) (s.tcb j)
      × ((relink q p s).port2sock ≡ s.port2sock)
      × ((relink q p s).tcb_used_list ≡ s.tcb_used_list)
      × ((relink q p s).tcb_free_list ≡ s.tcb_free_list)
relink-effect none p s j = (refl, refl, (refl, refl, refl, refl), refl, refl, refl)
relink-effect (some q) p s j = (
  ground arith,
  ground arith,
  (ground arith, ground arith, ground arith, ground arith),
  refl,
  refl,
  refl,
)

pub record Inserted (lh n : ℕ) (s : Store) (s' : Store) (j : ℕ) : Type 0 where
  pub next :
      (s'.tcb j).next
      ≡ (if n == j then (s.tcb lh).next else if lh == j then some n else (s.tcb j).next)
  pub prev :
      (s'.tcb j).prev
      ≡ (if points (s.tcb lh).next j then some n else if n == j then some lh else (s.tcb j).prev)
  pub block : SameBlock (s'.tcb j) (s.tcb j)
  pub ports : s'.port2sock ≡ s.port2sock
  pub used : s'.tcb_used_list ≡ s.tcb_used_list
  pub free : s'.tcb_free_list ≡ s.tcb_free_list

pub insert_into_list-effect :
    (lh n : ℕ) (s : Store) (j : ℕ) → n ≢ lh → Inserted lh n s (insert_into_list lh n s) j
unfolding insert_into_list
insert_into_list-effect lh n s j ne =
    let s3 = set_prev n (some lh) (set_next n (s.tcb lh).next (set_next lh (some n) s)) in
    ground (arith, relink-effect (s.tcb lh).next (some n) s3 j)

pub record Removed (p n : ℕ) (s : Store) (s' : Store) (j : ℕ) : Type 0 where
  pub next : (s'.tcb j).next ≡ (if p == j then (s.tcb n).next else (s.tcb j).next)
  pub prev : (s'.tcb j).prev ≡ (if points (s.tcb n).next j then some p else (s.tcb j).prev)
  pub block : SameBlock (s'.tcb j) (s.tcb j)
  pub ports : s'.port2sock ≡ s.port2sock
  pub used : s'.tcb_used_list ≡ s.tcb_used_list
  pub free : s'.tcb_free_list ≡ s.tcb_free_list

-- The store after `remove_from_list n`, where `p` precedes `n`.
abbrev pub unlinked : ℕ → ℕ → Store → Store
unlinked p n s = let s1 = set_next p (s.tcb n).next s in relink (s1.tcb n).next (s1.tcb n).prev s1

pub remove_from_list-some :
    (p n : ℕ) (s : Store) → (s.tcb n).prev ≡ some p → remove_from_list n s ≡ some (unlinked p n s)
unfolding remove_from_list
remove_from_list-some p n s e = ground arith

pub unlinked-effect :
    (p n : ℕ) (s : Store) (j : ℕ)
    → (s.tcb n).prev ≡ some p
    → p ≢ n
    → Removed p n s (unlinked p n s) j
unlinked-effect p n s j e ne =
    let s1 = set_next p (s.tcb n).next s in
    ground (arith, relink-effect (s1.tcb n).next (s1.tcb n).prev s1 j)
