-- ===== src/Srt/Client/Calls.antt =====
-- `try_send` and the calls that use it, against the segments that the handler receives.
pub mod Connect
use code_snippet.Prelude.{
  ℕ, zero, suc, ◌+◌, ◌≡◌, refl, Option, none, some, Bool, true, false, ◌==◌, ltb, if◌then◌else◌,
  ◌&&◌, ◌||◌, arith, List, [], ◌∷◌, ◌++◌, All, ℤ, pos, negsuc, sym, ◌∙◌, ap, Option-cases,
  Bool-cases, inl, inr, replicate, ◌<◌,
}
use code_snippet.Srt.Tcb.{Tcb, Store, set_state}
use code_snippet.Srt.Client.{
  Header, World, Round, closed, put_state, try_once, try_loop, try_send, pred,
}
use code_snippet.Srt.Client.Waits.{InRange, answered, Waits, Tried, try_once-Tried}

-- One of the `k` sleeps from round `i` on receives an answer.
unfoldable pub answered_within : (ℕ → Option ℕ) → ℕ → ℕ → (ℕ → Round) → ℕ → ℕ → Bool
answered_within ports n kind rounds zero i = false
answered_within ports n kind rounds (suc k) i =
    answered ports n kind (rounds i).late || answered_within ports n kind rounds k (suc i)

-- How many of those rounds begin: all up to the first with an answer.
unfoldable pub tries : (ℕ → Option ℕ) → ℕ → ℕ → (ℕ → Round) → ℕ → ℕ → ℕ
tries ports n kind rounds zero i = 0
tries ports n kind rounds (suc k) i =
    if answered ports n kind (rounds i).late then 1 else suc (tries ports n kind rounds k (suc i))

replicate-shift :
    (m : ℕ) (h : Header) (hs : List Header)
    → (replicate m h ++ (h ∷ hs)) ≡ (h ∷ (replicate m h ++ hs))
replicate-shift zero h hs = refl
replicate-shift (suc m) h hs = ap (λ (t : List Header). h ∷ t) (replicate-shift m h hs)

-- All segments that arrive have a port of the table.
abbrev pub InRangeRounds : (ℕ → Round) → Type 0
InRangeRounds rounds = (i : ℕ) → All InRange (rounds i).early × All InRange (rounds i).late

pub record Sent (n dest kind : ℕ) (seg : Header) (rounds : ℕ → Round) (k i : ℕ) (w w' : World)
    (code : ℤ) : Type 0 where
  pub code_is :
      code ≡ (if answered_within w.store.port2sock n kind rounds k i then pos 0 else negsuc 0)
  pub state :
      (w'.store.tcb n).state
      ≡ (if answered_within w.store.port2sock n kind rounds k i then dest else closed)
  pub sent : w'.sent ≡ (replicate (tries w.store.port2sock n kind rounds k i) seg ++ w.sent)

module _ (mid dest kind : ℕ) (wt : Waits mid dest kind) (n : ℕ) (seg : Header) (rounds : ℕ → Round)
    (ok : InRangeRounds rounds) where
  Sent-later :
      (k i : ℕ) (w w1 w' : World) (code : ℤ)
      → Tried mid dest kind wt n seg (rounds i) w w1
      → answered w.store.port2sock n kind (rounds i).late ≡ false
      → Sent n dest kind seg rounds k (suc i) w1 w' code
      → Sent n dest kind seg rounds (suc k) i w w' code
  unfolding answered_within tries
  Sent-later k i w w1 w' code t e b = record {
    code_is =
        b.code_is
        ∙ ap (λ p. if answered_within p n kind rounds k (suc i) then pos 0 else negsuc 0) t.ports
        ∙ rw e refl;
    state =
        b.state
        ∙ ap (λ p. if answered_within p n kind rounds k (suc i) then dest else closed) t.ports
        ∙ rw e refl;
    sent =
        b.sent
        ∙ ap (λ p. replicate (tries p n kind rounds k (suc i)) seg ++ w1.sent) t.ports
        ∙ ap
            (λ (l : List Header).
              replicate (tries w.store.port2sock n kind rounds k (suc i)) seg ++ l)
            t.sent
        ∙ replicate-shift (tries w.store.port2sock n kind rounds k (suc i)) seg w.sent
        ∙ rw e refl;
  }

  pub try_loop-Sent :
      (k i : ℕ) (w : World)
      → (w.store.tcb n).is_free ≡ false
      → (r : ℤ × World) × (try_loop k i n seg mid dest rounds w ≡ some r)
        × Sent n dest kind seg rounds k i w r.1 r.0
  unfolding try_loop answered_within tries
  try_loop-Sent zero i w live = (
    (negsuc 0, put_state n closed w),
    refl,
    record { code_is = refl; state = ground arith; sent = refl },
  )
  try_loop-Sent (suc k) i w live =
      let a = try_once-Tried mid dest kind wt n seg (rounds i) w (ok i).0 (ok i).1 live in
      let b = try_loop-Sent k (suc i) a.0 a.2.is_free in
      elim (Bool-cases (answered w.store.port2sock n kind (rounds i).late)) [
        | inl e ↦ (
          (pos 0, a.0),
          ground (arith, a.1, a.2.state, e),
          record {
            code_is = ground (arith, e);
            state = ground (arith, e, a.2.state);
            sent = ground (arith, e, a.2.sent);
          },
        )
        | inr e ↦ (
          b.0,
          ground (arith, a.1, a.2.state, wt.apart, b.1, e),
          Sent-later k i w a.0 b.0.1 b.0.0 a.2 e b.2,
        )
      ]
