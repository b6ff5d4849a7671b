-- ===== src/Srt/Framing/Frames.antt =====
-- What `recvseg` makes of a stream of bytes: where a frame ends, and what the buffer holds then.
use code_snippet.Prelude.{
  ℕ, zero, suc, ◌+◌, ◌≤◌, ◌<◌, ◌≡◌, ◌≢◌, refl, ◌∙◌, List, [], ◌∷◌, ◌++◌, Bool, true, false, ◌==◌,
  if◌then◌else◌, update, length, arith, dec_lt, ap, update_ne, update_self,
}
use code_snippet.Srt.Framing.{
  buf_size, bang, amp, hash, seglost, FrameState, start, body, body_bang, Receiver, more, frame,
  overflow, put, finish, read_byte, Received, segment, fault, receive,
}

-- No byte '#' of the list follows a '!', where `after` tells whether a '!' stands before the list.
abbrev pub Plain : Bool → List ℕ → Type 0
Plain after [] = Unit
Plain after (c ∷ cs) = ((after ≡ true) → c ≢ hash) × Plain (c == bang) cs

abbrev pub in_body : Bool → FrameState
in_body true = body_bang
in_body false = body

-- The array after `xs` has been stored from index `i` on.
abbrev pub load : (ℕ → ℕ) → ℕ → List ℕ → ℕ → ℕ
load b i [] = b
load b i (x ∷ xs) = load (update b i x) (i + 1) xs

-- The first `n` entries of an array from index `i` on.
abbrev pub read_array : (ℕ → ℕ) → ℕ → ℕ → List ℕ
read_array b i zero = []
read_array b i (suc n) = b i ∷ read_array b (i + 1) n

load-below : (b : ℕ → ℕ) (i j : ℕ) (xs : List ℕ) → j < i → load b i xs j ≡ b j
load-below b i j [] h = refl
load-below b i j (x ∷ xs) h =
    load-below (update b i x) (i + 1) j xs (omega arith) ∙ update_ne b i j x (omega arith)

pub read_array-load :
    (b : ℕ → ℕ) (i : ℕ) (xs ys : List ℕ) → read_array (load b i (xs ++ ys)) i (length xs) ≡ xs
read_array-load b i [] ys = refl
read_array-load b i (x ∷ xs) ys =
    rw (load-below (update b i x) (i + 1) i (xs ++ ys) (omega arith), update_self b i x)
      (ap (◌∷◌ x) (read_array-load (update b i x) (i + 1) xs ys))

-- What the end of a frame leads to.
abbrev pub complete : (ℕ → ℕ) → ℕ → List ℕ → (ℕ → ℕ) → Received
complete rand n rest b =
    if seglost (rand n)
    then receive rand (n + 1) rest (record { state = start; buf = b; idx = 0 })
    else segment b rest (n + 1)

abbrev pub at_body : Bool → (ℕ → ℕ) → ℕ → Receiver
at_body after b i = record { state = in_body after; buf = b; idx = i }

-- A byte of the body that does not end the frame is stored.
read_plain :
    (after : Bool) (c : ℕ) (b : ℕ → ℕ) (i : ℕ)
    → ((after ≡ true) → c ≢ hash)
    → i < buf_size
    → read_byte (in_body after) c (at_body after b i)
      ≡ more (at_body (c == bang) (update b i c) (i + 1))
unfolding read_byte put
read_plain true c b i plain room = ground (arith, plain refl)
read_plain false c b i plain room = ground arith

read_hash :
    (b : ℕ → ℕ) (i : ℕ)
    → i < buf_size
    → read_byte body_bang hash (at_body true b i)
      ≡ frame (record { state = start; buf = update b i hash; idx = 0 })
unfolding read_byte finish
read_hash b i room = ground arith

read_full :
    (after : Bool) (c : ℕ) (b : ℕ → ℕ) (i : ℕ)
    → buf_size ≤ i
    → read_byte (in_body after) c (at_body after b i) ≡ overflow
unfolding read_byte put finish
read_full true c b i full = ground arith
read_full false c b i full = ground arith

module _ (rand : ℕ → ℕ) (n : ℕ) where
  byte_step :
      (after : Bool) (c : ℕ) (cs : List ℕ) (b : ℕ → ℕ) (i : ℕ)
      → ((after ≡ true) → c ≢ hash)
      → i < buf_size
      → receive rand n (c ∷ cs) (at_body after b i)
        ≡ receive rand n cs (at_body (c == bang) (update b i c) (i + 1))
  unfolding receive
  byte_step after c cs b i plain room = rw (read_plain after c b i plain room, receive)

  byte_end :
      (cs : List ℕ) (b : ℕ → ℕ) (i : ℕ)
      → i < buf_size
      → receive rand n (hash ∷ cs) (at_body true b i) ≡ complete rand n cs (update b i hash)
  unfolding receive
  byte_end cs b i room = rw (read_hash b i room, receive)

  byte_full :
      (after : Bool) (c : ℕ) (cs : List ℕ) (b : ℕ → ℕ) (i : ℕ)
      → buf_size ≤ i
      → receive rand n (c ∷ cs) (at_body after b i) ≡ fault
  unfolding receive
  byte_full after c cs b i full = rw (read_full after c b i full, receive)

  -- The first '!#' ends the frame, if the buffer has room for it.
  pub body_ends :
      (after : Bool) (xs rest : List ℕ) (b : ℕ → ℕ) (i : ℕ)
      → Plain after xs
      → i + length xs + 2 ≤ buf_size
      → receive rand n (xs ++ (bang ∷ hash ∷ rest)) (at_body after b i)
        ≡ complete rand n rest (load b i (xs ++ (bang ∷ hash ∷ [])))
  body_ends after [] rest b i plain room =
      byte_step after bang (hash ∷ rest) b i (λ a e. omega arith) (omega arith)
      ∙ byte_end rest (update b i bang) (i + 1) (omega arith)
  body_ends after (x ∷ xs) rest b i plain room =
      byte_step after x (xs ++ (bang ∷ hash ∷ rest)) b i plain.0 (omega arith)
      ∙ body_ends (x == bang) xs rest (update b i x) (i + 1) plain.1 (omega arith)

  -- Bytes without '!#' that do not fit are stored past the end of the buffer.
  pub body_overflows :
      (after : Bool) (xs rest : List ℕ) (b : ℕ → ℕ) (i : ℕ)
      → Plain after xs
      → i ≤ buf_size
      → buf_size < i + length xs
      → receive rand n (xs ++ rest) (at_body after b i) ≡ fault
  body_overflows after [] rest b i plain fits over = absurd (omega arith)
  body_overflows after (x ∷ xs) rest b i plain fits over = elim (dec_lt i buf_size) [
    | yes room ↦
        byte_step after x (xs ++ rest) b i plain.0 room
        ∙ body_overflows (x == bang) xs rest (update b i x) (i + 1) plain.1 (omega arith)
            (omega arith)
    | no full ↦ byte_full after x (xs ++ rest) b i (omega arith)
  ]

  -- '!&' outside a frame begins one.
  pub frame_begins :
      (cs : List ℕ) (b : ℕ → ℕ)
      → receive rand n (bang ∷ amp ∷ cs) (record { state = start; buf = b; idx = 0 })
        ≡ receive rand n cs (at_body false b 0)
  unfolding receive read_byte
  frame_begins cs b = refl
