-- ===== src/Srt/Client/Waits.antt =====
-- What the handler of the client does to one connection in the rounds of `try_send`.
use code_snippet.Prelude.{
  ℕ, ◌≡◌, refl, Option, some, Bool, true, false, ◌==◌, ltb, if◌then◌else◌, ◌&&◌, ◌||◌, arith, List,
  [], ◌∷◌, All, ◌∙◌, ap, Option-cases, Bool-cases, inl, inr,
}
use code_snippet.Srt.Tcb.{max_port_num}
use code_snippet.Srt.Tcb.Effect.{points}
use code_snippet.Srt.Client.{
  Header, World, Round, closed, synsent, connected, finwait, synack, finack, send, client_next,
  client_handle, client_handle_all, put_state, try_once,
}

abbrev pub InRange : Header → Type 0
InRange h = ltb h.dest_port max_port_num ≡ true

-- The segment goes to connection `n`.
abbrev pub addressed : (ℕ → Option ℕ) → ℕ → Header → Bool
addressed ports n h = points (ports h.dest_port) n

-- Some segment of the list answers connection `n` with type `kind`.
unfoldable pub answered : (ℕ → Option ℕ) → ℕ → ℕ → List Header → Bool
answered ports n kind [] = false
answered ports n kind (h ∷ hs) =
    (addressed ports n h && (h.type == kind)) || answered ports n kind hs

-- What no handler writes.
pub record Keeps (n : ℕ) (w w' : World) : Type 0 where
  pub ports : w'.store.port2sock ≡ w.store.port2sock
  pub is_free : (w'.store.tcb n).is_free ≡ (w.store.tcb n).is_free
  pub sent : w'.sent ≡ w.sent

pub client_handle-effect :
    (h : Header) (w : World) (n : ℕ)
    → InRange h
    → (w.store.tcb n).is_free ≡ false
    → (w' : World) × (client_handle h w ≡ some w')
      × Keeps n w w'
      × ((w'.store.tcb n).state ≡ (
          if addressed w.store.port2sock n h
          then client_next h.type (w.store.tcb n).state
          else (w.store.tcb n).state))
unfolding client_handle
client_handle-effect h w n r live = elim (Option-cases (w.store.port2sock h.dest_port)) [
  | inl e ↦ (w, ground arith, record { ports = refl; is_free = refl; sent = refl }, ground arith)
  | inr e ↦ elim (Bool-cases (w.store.tcb e.0).is_free) [
    | inl f ↦ (
      w,
      ground (arith, e.1, f),
      record { ports = refl; is_free = refl; sent = refl },
      ground (arith, e.1),
    )
    | inr f ↦ (
      put_state e.0 (client_next h.type (w.store.tcb e.0).state) w,
      ground (arith, e.1, f),
      record { ports = refl; is_free = ground arith; sent = refl },
      ground (arith, e.1),
    )
  ]
]

Keeps-trans : (n : ℕ) (w w1 w2 : World) → Keeps n w w1 → Keeps n w1 w2 → Keeps n w w2
Keeps-trans n w w1 w2 a b = record {
  ports = b.ports ∙ a.ports;
  is_free = b.is_free ∙ a.is_free;
  sent = b.sent ∙ a.sent;
}

client_handle_all-Keeps :
    (hs : List Header) (w : World) (n : ℕ)
    → All InRange hs
    → (w.store.tcb n).is_free ≡ false
    → (w' : World) × (client_handle_all hs w ≡ some w') × Keeps n w w'
unfolding client_handle_all
client_handle_all-Keeps [] w n r live =
    (w, refl, record { ports = refl; is_free = refl; sent = refl })
client_handle_all-Keeps (h ∷ hs) w n r live =
    let a = client_handle-effect h w n r.0 live in
    let b = client_handle_all-Keeps hs a.0 n r.1 (a.2.is_free ∙ live) in
    (b.0, ground (arith, a.1, b.1), Keeps-trans n w a.0 b.0 a.2 b.2)

-- `kind` moves a connection from `mid` to `dest`, and nothing moves it on or elsewhere.
pub record Waits (mid dest kind : ℕ) : Type 0 where
  pub moves : (t : ℕ) → client_next t mid ≡ (if t == kind then dest else mid)
  pub stays : (t : ℕ) → client_next t dest ≡ dest
  pub apart : (mid == dest) ≡ false

pub synsent-Waits : Waits synsent connected synack
unfolding client_next
synsent-Waits = record { moves = λ t. refl; stays = λ t. refl; apart = refl }

pub finwait-Waits : Waits finwait closed finack
unfolding client_next
finwait-Waits = record { moves = λ t. refl; stays = λ t. refl; apart = refl }

module _ (mid dest kind : ℕ) (wt : Waits mid dest kind) (n : ℕ) where
  step_waits :
      (t st : ℕ) (x b : Bool)
      → st ≡ (if b then dest else mid)
      → (if x then client_next t st else st) ≡ (if b || (x && (t == kind)) then dest else mid)
  step_waits t st true true e = ap (client_next t) e ∙ wt.stays t
  step_waits t st false true e = e
  step_waits t st true false e = ap (client_next t) e ∙ wt.moves t
  step_waits t st false false e = e

  or_assoc : (a b c : Bool) → ((a || b) || c) ≡ (a || (b || c))
  or_assoc true b c = refl
  or_assoc false b c = refl

  handle_waits :
      (hs : List Header) (w : World) (b : Bool)
      → All InRange hs
      → (w.store.tcb n).is_free ≡ false
      → (w.store.tcb n).state ≡ (if b then dest else mid)
      → (w' : World) × (client_handle_all hs w ≡ some w')
        × Keeps n w w'
        × ((w'.store.tcb n).state
            ≡ (if b || answered w.store.port2sock n kind hs then dest else mid))
  unfolding client_handle_all answered
  handle_waits [] w b r live st =
      (w, refl, record { ports = refl; is_free = refl; sent = refl }, ground (arith, st))
  handle_waits (h ∷ hs) w b r live st =
      let a = client_handle-effect h w n r.0 live in
      let x = addressed w.store.port2sock n h && (h.type == kind) in
      let c =
        handle_waits hs a.0 (b || x) r.1 (a.2.is_free ∙ live)
          (a.3 ∙ step_waits h.type (w.store.tcb n).state (addressed w.store.port2sock n h) b st) in
      (
        c.0,
        ground (arith, a.1, c.1),
        Keeps-trans n w a.0 c.0 a.2 c.2,
        c.3
            ∙ ap (λ ports. if (b || x) || answered ports n kind hs then dest else mid) a.2.ports
            ∙ ap (λ z. if z then dest else mid)
                (or_assoc b x (answered w.store.port2sock n kind hs)),
      )

  pub record Tried (seg : Header) (r : Round) (w w' : World) : Type 0 where
    pub ports : w'.store.port2sock ≡ w.store.port2sock
    pub is_free : (w'.store.tcb n).is_free ≡ false
    pub sent : w'.sent ≡ seg ∷ w.sent
    pub state :
        (w'.store.tcb n).state ≡ (if answered w.store.port2sock n kind r.late then dest else mid)

  pub try_once-Tried :
      (seg : Header) (r : Round) (w : World)
      → All InRange r.early
      → All InRange r.late
      → (w.store.tcb n).is_free ≡ false
      → (w' : World) × (try_once n seg mid r w ≡ some w') × Tried seg r w w'
  unfolding try_once
  try_once-Tried seg r w re rl live =
      let a = client_handle_all-Keeps r.early (send seg w) n re live in
      let w1 = put_state n mid a.0 in
      let b = handle_waits r.late w1 false rl (ground (arith, a.2.is_free, live)) (ground arith) in
      (
        b.0,
        ground (arith, a.1, b.1),
        record {
          ports = b.2.ports ∙ a.2.ports;
          is_free = ground (arith, b.2.is_free, a.2.is_free, live);
          sent = b.2.sent ∙ a.2.sent;
          state = b.3 ∙ ap (λ ports. if answered ports n kind r.late then dest else mid) a.2.ports;
        },
      )
