-- ===== src/UnionFind/Tests.antt =====
-- A forest of four elements.
use code_snippet.Prelude.{ℕ, ◌≡◌, refl, arith, Option, none, some, Bool, true, false, ◌⊎◌, ◌↔◌}
use code_snippet.UnionFind.{
  UnionFind, union_find, set_singles, root, root_loop, total, is_connected, link, connect,
}
use code_snippet.UnionFind.Roots.{RootOf, RootOf-self}
use code_snippet.UnionFind.Twice.{IsValid, Same}
use code_snippet.UnionFind.Connect.{is_connected-Same, connect-Same, union_find-Same}

abbrev four : UnionFind
four = union_find 4 (λ i. 7) (λ i. 7)

abbrev answer : Option (UnionFind × Bool) → Option Bool
answer none = none
answer (some (s, b)) = some b

abbrev then_ask : Option UnionFind → ℕ → ℕ → Option Bool
then_ask none p q = none
then_ask (some s) p q = answer (is_connected s p q)

connected_after : then_ask (connect four 1 3) 3 1 ≡ some true
unfolding union_find set_singles root root_loop total is_connected link connect
connected_after = refl

apart_after : then_ask (connect four 1 3) 3 2 ≡ some false
unfolding union_find set_singles root root_loop total is_connected link connect
apart_after = refl

four_size : four.size ≡ 4
unfolding union_find set_singles
four_size = refl

four-IsValid : IsValid four
four-IsValid = (union_find-Same 4 0 0 (λ i. 7) (λ i. 7) (omega arith) (omega arith)).0

four_own : RootOf four.parent 2 2
unfolding union_find set_singles
four_own = let own : four.parent 2 ≡ 2 = refl in RootOf-self own

is_connected-Same_example :
    (s' : UnionFind) × (yes_no : Bool) × (is_connected four 1 3 ≡ some (s', yes_no))
    × ((yes_no ≡ true) ↔ Same four 1 3)
    × IsValid s'
    × RootOf s'.parent 2 2
is_connected-Same_example =
    is_connected-Same four 1 3 2 2 four-IsValid (omega (arith, four_size))
      (omega (arith, four_size)) four_own

connect-Same_example :
    (s' : UnionFind) × (connect four 1 3 ≡ some s')
    × IsValid s'
    × (s'.size ≡ four.size)
    × (Same s' 0 1
        ↔ (Same four 0 1 ⊎ ((Same four 0 1 × Same four 3 1) ⊎ (Same four 0 3 × Same four 1 1))))
connect-Same_example =
    connect-Same four 1 3 0 1 four-IsValid (omega (arith, four_size)) (omega (arith, four_size))
      (omega (arith, four_size)) (omega (arith, four_size))
