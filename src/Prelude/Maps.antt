-- ===== src/Prelude/Maps.antt =====
-- Arrays and memories as functions of the index, and counted loops.
use Prim.Native.Nat.{ℕ, zero, suc, ◌+◌}
use mathlib.Core.Path.{◌≡◌}
use mathlib.Core.Logic.{◌≢◌}
use native.Mathlib.Omega.{arith}
use code_snippet.Prelude.Tests.{◌==◌, if◌then◌else◌}

-- a[i] = v
abbrev pub update {ℓ} : {Cell : Type ℓ} (array : ℕ → Cell) (index : ℕ) (value : Cell) → ℕ → Cell
update array index value j = if index == j then value else array j

pub update_self {ℓ} : {A : Type ℓ} (f : ℕ → A) (i : ℕ) (v : A) → update f i v i ≡ v
update_self f i v = ground arith

pub update_ne {ℓ} : {A : Type ℓ} (f : ℕ → A) (i j : ℕ) (v : A) → i ≢ j → update f i v j ≡ f j
update_ne f i j v h = ground arith

-- for (k = i; k < i + n; k++) s = body k s
unfoldable pub for_range {ℓ} :
    {State : Type ℓ} (count first : ℕ) (round : ℕ → State → State) (state : State) → State
for_range zero first round state = state
for_range (suc more) first round state =
    let after = round first state in for_range more (first + 1) round after

-- A property that every round keeps holds at the end; a round is one of `i ≤ k < i + n`.
pub for_range_keeps {ℓ κ} :
    {S : Type ℓ} (P : S → Type κ) (body : ℕ → S → S) (n i : ℕ) (s : S)
    → ((k : ℕ) (t : S) → P t → P (body k t))
    → P s
    → P (for_range n i body s)
unfolding for_range
for_range_keeps P body zero i s keep h = h
for_range_keeps P body (suc n) i s keep h =
    for_range_keeps P body n (i + 1) (body i s) keep (keep i s h)
