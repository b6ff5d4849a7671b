-- ===== src/Sort/Heap/Sink.antt =====
-- The loop of Algorithm/Sort/sort.h that lets an element sink in a heap.
use code_snippet.Prelude.{
  ℕ, zero, suc, ◌+◌, ◌≤◌, ◌<◌, ◌≡◌, refl, ◌∙◌, sym, ap, arith, some, true, false, ℤ, ◌⊎◌, inl, inr,
  ◌≢◌, ltb, ltb→lt, ◌==◌, Bool-cases, update, update_self, update_ne,
}
use mathlib.Core.Path.{subst}
use code_snippet.Sort.{not_after}
use code_snippet.Sort.Moves.{Moved, Moved-refl, Moved-trans, Moved-swap, IsThreeWay, ==→≡}
use code_snippet.Sort.Heap.{greater_chil, sink_loop, left_chil}
use code_snippet.Sort.Heap.Chil.{
  IsChil, one_parent, chil-above, HeapFrom, Sinking, Sunk, Greater, greater_chil-Greater,
}

module _ {A : Type 0} (cmp_fn : A → A → ℤ) where
  related :
      {a b x y : A} → a ≡ x → b ≡ y → not_after cmp_fn x y ≡ true → not_after cmp_fn a b ≡ true
  related {a} {b} {x} {y} e f h =
      ap (λ z. not_after cmp_fn z b) e ∙ ap (λ z. not_after cmp_fn x z) f ∙ h

  module _ (o : IsThreeWay cmp_fn) (k last root : ℕ) (ele : A) (arr : ℕ → A) (low : k ≤ root)
      (s : Sinking cmp_fn k (suc last) root (update arr root ele)) where
    -- The element of the array at another place than the root.
    other : (j : ℕ) → j ≢ root → update arr root ele j ≡ arr j
    other j u = update_ne arr root j ele (λ e. u (sym e))

    at_root : update arr root ele root ≡ ele
    at_root = update_self arr root ele

    module _ (chil : ℕ) (g : Greater cmp_fn (suc last) root arr chil)
        (goes : not_after cmp_fn ele (arr chil) ≡ true) where
      abbrev further : ℕ → A
      further = update (update arr root (arr chil)) chil ele

      distinct : chil ≢ root
      distinct e = omega (arith, e, chil-above root chil g.is_chil)

      further-root : further root ≡ arr chil
      further-root =
          update_ne (update arr root (arr chil)) chil root ele distinct
          ∙ update_self arr root (arr chil)

      further-chil : further chil ≡ ele
      further-chil = update_self (update arr root (arr chil)) chil ele

      further-other : (j : ℕ) → j ≢ root → j ≢ chil → further j ≡ arr j
      further-other j u v =
          update_ne (update arr root (arr chil)) chil j ele (λ e. v (sym e))
          ∙ update_ne arr root j (arr chil) (λ e. u (sym e))

      further-Moved : root ≤ last → Moved 0 last (update arr root ele) further
      further-Moved l =
          Moved-swap 0 last root chil (update arr root ele) further (omega arith) l (omega arith)
            (omega (arith, g.inside)) (further-root ∙ sym (other chil distinct))
            (further-chil ∙ sym at_root) (λ j u v. further-other j u v ∙ sym (other j u))

      further-edges :
          (i c : ℕ)
          → k ≤ i
          → i ≢ chil
          → IsChil i c
          → c < suc last
          → not_after cmp_fn (further c) (further i) ≡ true
      further-edges i c a u h l = elim (Bool-cases (i == root)) [
        | inl e ↦ of_root (==→≡ i root e) (Bool-cases (c == chil))
        | inr e ↦ of_other (ground (arith, e)) (Bool-cases (c == root))
      ]
        where
          of_root :
              i ≡ root
              → ((c == chil) ≡ true) ⊎ ((c == chil) ≡ false)
              → not_after cmp_fn (further c) (further i) ≡ true
          of_root e (inl f) =
              related (ap further (==→≡ c chil f) ∙ further-chil) (ap further e ∙ further-root) goes
          of_root e (inr f) =
              let h' : IsChil root c = subst (λ j. IsChil j c) e h in
              related
                (further-other c (λ t. absurd (omega (arith, t, chil-above root c h')))
                  (ground (arith, f)))
                (ap further e ∙ further-root) (g.greatest c h' l)

          of_other :
              i ≢ root
              → ((c == root) ≡ true) ⊎ ((c == root) ≡ false)
              → not_after cmp_fn (further c) (further i) ≡ true
          of_other e (inl f) =
              let at : c ≡ root = ==→≡ c root f in
              related (ap further at ∙ further-root ∙ sym (other chil distinct))
                (further-other i e u ∙ sym (other i e))
                (s.bridged i chil a (subst (IsChil i) at h) g.is_chil g.inside)
          of_other e (inr f) =
              related
                (further-other c (ground (arith, f))
                    (λ t. e (one_parent i root chil (subst (IsChil i) t h) g.is_chil))
                  ∙ sym (other c (ground (arith, f))))
                (further-other i e u ∙ sym (other i e)) (s.edges i c a e h l)

      further-Sinking : Sinking cmp_fn k (suc last) chil further
      further-Sinking = record {
        edges = further-edges;
        bridged = λ i c a h t l.
            let same : i ≡ root = one_parent i root chil h g.is_chil in
            let above = chil-above chil c t in
            let above_root = chil-above root chil g.is_chil in
            let apart : c ≢ root = λ e. absurd (omega (arith, e, above, above_root)) in
            related
              (further-other c apart (λ e. absurd (omega (arith, e, above))) ∙ sym (other c apart))
              (ap further same ∙ further-root ∙ sym (other chil distinct))
              (s.edges chil c (omega (arith, above_root, low)) distinct t l);
      }

    -- The element stays where it is.
    stays-HeapFrom :
        ((c : ℕ) → IsChil root c → c < suc last → not_after cmp_fn (arr c) ele ≡ true)
        → HeapFrom cmp_fn k (suc last) (update arr root ele)
    unfolding HeapFrom
    stays-HeapFrom below i c a h l = elim (Bool-cases (i == root)) [
      | inl e ↦
          (let same : i ≡ root = ==→≡ i root e in
            let h' : IsChil root c = subst (λ j. IsChil j c) same h in
            related (other c (λ t. absurd (omega (arith, t, chil-above root c h'))))
              (ap (update arr root ele) same ∙ at_root) (below c h' l))
      | inr e ↦ s.edges i c a (ground (arith, e)) h l
    ]

  sink_loop-goes :
      (fuel n root : ℕ) (ele : A) (arr : ℕ → A)
      → ltb (left_chil root) n ≡ true
      → not_after cmp_fn ele (arr (greater_chil cmp_fn n root arr)) ≡ true
      → sink_loop cmp_fn (suc fuel) n ele root arr
        ≡ sink_loop cmp_fn fuel n ele
            (greater_chil cmp_fn n root arr)
            (update arr root (arr (greater_chil cmp_fn n root arr)))
  unfolding sink_loop
  sink_loop-goes fuel n root ele arr e f = rw (sink_loop, e, f) refl

  sink_loop-settles :
      (fuel n root : ℕ) (ele : A) (arr : ℕ → A)
      → ltb (left_chil root) n ≡ true
      → not_after cmp_fn ele (arr (greater_chil cmp_fn n root arr)) ≡ false
      → sink_loop cmp_fn (suc fuel) n ele root arr ≡ some (update arr root ele)
  unfolding sink_loop
  sink_loop-settles fuel n root ele arr e f = rw (sink_loop, e, f) refl

  sink_loop-leaf :
      (fuel n root : ℕ) (ele : A) (arr : ℕ → A)
      → ltb (left_chil root) n ≡ false
      → sink_loop cmp_fn (suc fuel) n ele root arr ≡ some (update arr root ele)
  unfolding sink_loop
  sink_loop-leaf fuel n root ele arr e = rw (sink_loop, e) refl

  pub sink_loop-Sunk :
      (fuel k last root : ℕ) (ele : A) (arr : ℕ → A)
      → IsThreeWay cmp_fn
      → k ≤ root
      → root ≤ last
      → last < fuel + root
      → Sinking cmp_fn k (suc last) root (update arr root ele)
      → Sunk cmp_fn k last (update arr root ele) (sink_loop cmp_fn fuel (suc last) ele root arr)
  sink_loop-Sunk zero k last root ele arr o low l f s = absurd (omega (arith, l, f))
  sink_loop-Sunk (suc fuel) k last root ele arr o low l f s =
      round (Bool-cases (ltb (left_chil root) (suc last)))
        (Bool-cases (not_after cmp_fn ele (arr (greater_chil cmp_fn (suc last) root arr))))
        (λ chil arr1 a b c.
          sink_loop-Sunk fuel k last chil ele arr1 o (omega (arith, low, a)) b (omega (arith, f, a))
            c)
    where
      settled :
          sink_loop cmp_fn (suc fuel) (suc last) ele root arr ≡ some (update arr root ele)
          → HeapFrom cmp_fn k (suc last) (update arr root ele)
          → Sunk cmp_fn k last
              (update arr root ele)
              (sink_loop cmp_fn (suc fuel) (suc last) ele root arr)
      settled ran heap = record {
        result = update arr root ele;
        ran = ran;
        heap = heap;
        moved = Moved-refl 0 last (update arr root ele);
      }

      round :
          (ltb (left_chil root) (suc last) ≡ true) ⊎ (ltb (left_chil root) (suc last) ≡ false)
          → (not_after cmp_fn ele (arr (greater_chil cmp_fn (suc last) root arr)) ≡ true)
            ⊎ (not_after cmp_fn ele (arr (greater_chil cmp_fn (suc last) root arr)) ≡ false)
          → ((chil : ℕ) (arr1 : ℕ → A)
              → root < chil
              → chil ≤ last
              → Sinking cmp_fn k (suc last) chil (update arr1 chil ele)
              → Sunk cmp_fn k last
                  (update arr1 chil ele)
                  (sink_loop cmp_fn fuel (suc last) ele chil arr1))
          → Sunk cmp_fn k last
              (update arr root ele)
              (sink_loop cmp_fn (suc fuel) (suc last) ele root arr)
      round (inr e) b rest =
          settled (sink_loop-leaf fuel (suc last) root ele arr e)
            (stays-HeapFrom o k last root ele arr low s (λ c h m. absurd (ground (arith, h, m, e))))
      round (inl e) (inr b) rest =
          let chil = greater_chil cmp_fn (suc last) root arr in
          let g =
            greater_chil-Greater cmp_fn (suc last) root arr o
              (ltb→lt (left_chil root) (suc last) e) in
          settled (sink_loop-settles fuel (suc last) root ele arr e b) (
            stays-HeapFrom o k last root ele arr low s (λ c h m.
              o.order.transitive (arr c) (arr chil) ele (g.greatest c h m)
                (o.order.total ele (arr chil) b)))
      round (inl e) (inl b) rest =
          let chil = greater_chil cmp_fn (suc last) root arr in
          let g =
            greater_chil-Greater cmp_fn (suc last) root arr o
              (ltb→lt (left_chil root) (suc last) e) in
          let r =
            rest chil (update arr root (arr chil)) (chil-above root chil g.is_chil)
              (omega (arith, g.inside)) (further-Sinking o k last root ele arr low s chil g b) in
          record {
            result = r.result;
            ran = sink_loop-goes fuel (suc last) root ele arr e b ∙ r.ran;
            heap = r.heap;
            moved = Moved-trans (further-Moved o k last root ele arr low s chil g b l) r.moved;
          }
