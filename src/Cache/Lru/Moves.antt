-- ===== src/Cache/Lru/Moves.antt =====
-- Taking a line out of a chain and putting it first in the same chain or in another one, as the accesses
-- of C/CSAPPLab/cache/csim.c do.
use code_snippet.Prelude.{
  ℕ, ◌≡◌, ◌≢◌, ◌∙◌, sym, some, arith, List, [], ◌∷◌, ◌++◌, All, ap, NotIn, Distinct, Apart,
  Apart-sym, Apart-cons, pred_of, NotIn-middle, NotIn-at, Distinct-middle, NotIn-left, NotIn-right,
  All-at,
}
use mathlib.Core.Path.{subst}
use mathlib.Core.List.{append_assoc}
use code_snippet.Cache.{Heap, insert_cache_line_after, delete_cache_line, set_tag}
use code_snippet.Cache.Chain.{Run, Run-same, SameLinks, Frame, insert-Run, delete-Run}

-- The nodes of a chain from its head to its tail.
abbrev pub chain : ℕ → List ℕ → ℕ → List ℕ
chain p xs b = p ∷ (xs ++ (b ∷ []))

abbrev pub Chain : Heap → ℕ → List ℕ → ℕ → Type 0
Chain h p xs b = Run h p (xs ++ (b ∷ []))

pub insert-Chain :
    (h : Heap) (n p : ℕ) (ws : List ℕ) (b : ℕ)
    → Chain h p ws b
    → NotIn n (chain p ws b)
    → Distinct (chain p ws b)
    → (h' : Heap) × (insert_cache_line_after n p h ≡ some h')
      × Chain h' p (n ∷ ws) b
      × Frame (n ∷ (p ∷ [])) (n ∷ chain p ws b) h h'
insert-Chain h n p [] b r o d = insert-Run h n p b [] r o d
insert-Chain h n p (w ∷ ws) b r o d = insert-Run h n p w (ws ++ (b ∷ [])) r o d

delete-Chain :
    (h : Heap) (p : ℕ) (xs : List ℕ) (d : ℕ) (ys : List ℕ) (b : ℕ)
    → Run h p (xs ++ (d ∷ (ys ++ (b ∷ []))))
    → Distinct (p ∷ (xs ++ (d ∷ (ys ++ (b ∷ [])))))
    → (h' : Heap) × (delete_cache_line d h ≡ some h')
      × Run h' p (xs ++ (ys ++ (b ∷ [])))
      × Frame (pred_of p xs ∷ (d ∷ [])) (p ∷ (xs ++ (d ∷ (ys ++ (b ∷ []))))) h h'
delete-Chain h p xs d [] b r ds = delete-Run h p xs d b [] r ds
delete-Chain h p xs d (y ∷ ys) b r ds = delete-Run h p xs d y (ys ++ (b ∷ [])) r ds

-- The split of a chain at one of its nodes.
chain-split :
    (xs : List ℕ) (d : ℕ) (ys : List ℕ) (b : ℕ)
    → ((xs ++ (d ∷ ys)) ++ (b ∷ [])) ≡ (xs ++ (d ∷ (ys ++ (b ∷ []))))
chain-split xs d ys b = append_assoc xs (d ∷ ys) (b ∷ [])

-- A heap with the links of another one.
abbrev pub SameAll : ℕ → Heap → Heap → Type 0
SameAll d h g =
    ((j : ℕ) → (g j).next ≡ (h j).next)
    × ((j : ℕ) → (g j).prev ≡ (h j).prev)
    × ((j : ℕ) → j ≢ d → g j ≡ h j)

Run-SameAll : (d : ℕ) (h g : Heap) (p : ℕ) (xs : List ℕ) → SameAll d h g → Run h p xs → Run g p xs
Run-SameAll d h g p xs s r = Run-same h g p xs (s.0 p) (all xs) r
  where
    all : (zs : List ℕ) → All (SameLinks h g) zs
    all [] = tt
    all (z ∷ zs) = ((s.0 z, s.1 z), all zs)

pub set_tag-SameAll : (d t : ℕ) (h : Heap) → SameAll d h (set_tag d t h)
set_tag-SameAll d t h = (λ j. ground arith, λ j. ground arith, λ j ne. ground (arith, ne))

-- A chain that no changed line is on.
pub Run-outside :
    (h h' : Heap) (p : ℕ) (xs zs : List ℕ)
    → ((j : ℕ) → NotIn j zs → h' j ≡ h j)
    → Apart (p ∷ xs) zs
    → Run h p xs
    → Run h' p xs
Run-outside h h' p [] zs same a r = tt
Run-outside h h' p (x ∷ xs) zs same a r = (
  ap (λ l. l.next) (same p a.0) ∙ r.0,
  ap (λ l. l.prev) (same x a.1.0) ∙ r.1,
  Run-outside h h' x xs zs same a.1 r.2,
)

-- What a move of `d` among the nodes `xs` leaves alone.
pub record Moved (d : ℕ) (xs : List ℕ) (h h' : Heap) : Type 0 where
  pub others : (j : ℕ) → NotIn j xs → h' j ≡ h j
  pub tags : (j : ℕ) → j ≢ d → (h' j).tag ≡ (h j).tag

NotIn-drop :
    (j : ℕ) (xs : List ℕ) (d : ℕ) (ys : List ℕ) → NotIn j (xs ++ (d ∷ ys)) → NotIn j (xs ++ ys)
NotIn-drop j [] d ys o = o.1
NotIn-drop j (x ∷ xs) d ys o = (o.0, NotIn-drop j xs d ys o.1)

abbrev pub Relink : ℕ → (Heap → Heap) → Type 0
Relink d g = (h : Heap) → SameAll d h (g h)

-- `d` comes out of its chain, `g` is done to it, and it goes in again at the front.
pub front_same :
    (g : Heap → Heap) (h : Heap) (p : ℕ) (xs : List ℕ) (d : ℕ) (ys : List ℕ) (b : ℕ)
    → Relink d g
    → Chain h p (xs ++ (d ∷ ys)) b
    → Distinct (chain p (xs ++ (d ∷ ys)) b)
    → (h1 : Heap) × (h' : Heap) × (delete_cache_line d h ≡ some h1)
      × (insert_cache_line_after d p (g h1) ≡ some h')
      × Chain h' p (d ∷ (xs ++ ys)) b
      × Moved d (chain p (xs ++ (d ∷ ys)) b) h h'
      × ((h' d).tag ≡ (g h1 d).tag)
      × ((h1 d).tag ≡ (h d).tag)
front_same g h p xs d ys b same c ds =
    let e = chain-split xs d ys b in
    let ds' : Distinct (p ∷ (xs ++ (d ∷ (ys ++ (b ∷ []))))) = subst (λ l. Distinct (p ∷ l)) e ds in
    let k = delete-Chain h p xs d ys b (subst (λ l. Run h p l) e c) ds' in
    let c1 : Chain (g k.0) p (xs ++ ys) b =
      Run-SameAll d k.0 (g k.0) p ((xs ++ ys) ++ (b ∷ [])) (same k.0)
        (subst (λ l. Run k.0 p l) (sym (append_assoc xs ys (b ∷ []))) k.2) in
    let out : NotIn d (chain p (xs ++ ys) b) =
      ((
        λ q. NotIn-at p xs d (ys ++ (b ∷ [])) ds'.0 (sym q),
        subst (λ l. NotIn d l) (sym (append_assoc xs ys (b ∷ [])))
            (NotIn-middle p xs d (ys ++ (b ∷ [])) ds'.1),
      )) in
    let d1 : Distinct (chain p (xs ++ ys) b) =
      subst (λ l. Distinct (p ∷ l)) (sym (append_assoc xs ys (b ∷ [])))
        (Distinct-middle (p ∷ xs) d (ys ++ (b ∷ [])) ds') in
    let i = insert-Chain (g k.0) d p (xs ++ ys) b c1 out d1 in
    (
      k.0,
      i.0,
      k.1,
      i.1,
      i.2,
      record {
        others = λ j o.
            (let w = subst (λ l. NotIn j (p ∷ l)) e o in
              let jd = NotIn-at j xs d (ys ++ (b ∷ [])) w.1 in
              i.3.others j (
                jd,
                (
                  w.0,
                  subst (λ l. NotIn j l) (sym (append_assoc xs ys (b ∷ [])))
                      (NotIn-drop j xs d (ys ++ (b ∷ [])) w.1),
                ),
              )
              ∙ (same k.0).2 j jd
              ∙ k.3.others j w);
        tags = λ j ne. i.3.tags j ∙ ap (λ l. l.tag) ((same k.0).2 j ne) ∙ k.3.tags j;
      },
      i.3.tags d,
      k.3.tags d,
    )

-- The tail of a chain.
pub tail-Apart : (h : ℕ) (fs : List ℕ) (e : ℕ) (zs : List ℕ) → Apart (chain h fs e) zs → NotIn e zs
tail-Apart h fs e zs a = All-at (λ x. NotIn x zs) fs e [] a.1

-- The first line after `q` goes in after `p`, in a chain of its own.
pub front_other :
    (g : Heap → Heap) (h : Heap) (q d : ℕ) (ys : List ℕ) (c p : ℕ) (ws : List ℕ) (b : ℕ)
    → Relink d g
    → Chain h q (d ∷ ys) c
    → Chain h p ws b
    → Distinct (chain q (d ∷ ys) c)
    → Distinct (chain p ws b)
    → Apart (chain q (d ∷ ys) c) (chain p ws b)
    → (h1 : Heap) × (h' : Heap) × (delete_cache_line d h ≡ some h1)
      × (insert_cache_line_after d p (g h1) ≡ some h')
      × Chain h' q ys c
      × Chain h' p (d ∷ ws) b
      × Moved d (chain q (d ∷ ys) c ++ chain p ws b) h h'
      × ((h' d).tag ≡ (g h1 d).tag)
      × ((h1 d).tag ≡ (h d).tag)
      × ((h' c).next ≡ (h c).next)
front_other g h q d ys c p ws b same cq cp dq dp apart =
    let k = delete-Chain h q [] d ys c cq dq in
    let far = Apart-sym (chain q (d ∷ ys) c) (chain p ws b) apart in
    let kept : Chain k.0 p ws b =
      Run-outside h k.0 p (ws ++ (b ∷ [])) (chain q (d ∷ ys) c) k.3.others far cp in
    let c1 : Chain (g k.0) p ws b = Run-SameAll d k.0 (g k.0) p (ws ++ (b ∷ [])) (same k.0) kept in
    let c2 : Chain (g k.0) q ys c = Run-SameAll d k.0 (g k.0) q (ys ++ (c ∷ [])) (same k.0) k.2 in
    let c_d : c ≢ d = λ e. NotIn-at d ys c [] dq.1.0 (sym e) in
    let c_q : c ≢ q = λ e. NotIn-at q (d ∷ ys) c [] dq.0 (sym e) in
    let i = insert-Chain (g k.0) d p ws b c1 apart.1.0 dp in
    (
      k.0,
      i.0,
      k.1,
      i.1,
      Run-outside (g k.0) i.0 q (ys ++ (c ∷ [])) (d ∷ chain p ws b) i.3.others
          (Apart-cons d (chain p ws b) (chain q ys c) (λ e. dq.0.0 (sym e), dq.1.0)
            (apart.0, apart.1.1))
          c2,
      i.2,
      record {
        others = λ j o.
            (let l = NotIn-left j (chain q (d ∷ ys) c) (chain p ws b) o in
              let r = NotIn-right j (chain q (d ∷ ys) c) (chain p ws b) o in
              i.3.others j (l.1.0, r) ∙ (same k.0).2 j l.1.0 ∙ k.3.others j l);
        tags = λ j ne. i.3.tags j ∙ ap (λ l. l.tag) ((same k.0).2 j ne) ∙ k.3.tags j;
      },
      i.3.tags d,
      k.3.tags d,
      i.3.nexts c (c_d, ((tail-Apart q (d ∷ ys) c (chain p ws b) apart).0, tt))
          ∙ (same k.0).0 c
          ∙ k.3.nexts c (c_q, (c_d, tt)),
    )
