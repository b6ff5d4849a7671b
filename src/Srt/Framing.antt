-- ===== src/Srt/Framing.antt =====
-- Networks/DartNet/SRT/common/seg.c: how a segment's bytes are framed on the overlay connection.
pub mod Frames
pub mod Stream
use code_snippet.Prelude.{
  ℕ, zero, suc, ◌+◌, ◌%◌, List, [], ◌∷◌, ◌++◌, Bool, true, false, ◌==◌, ltb, if◌then◌else◌, update,
}

-- sizeof(seg_t): a header of 24 bytes and MAX_SEG_LEN bytes of data.
abbrev pub seg_size : ℕ
seg_size = 1524

-- sizeof(buf) in `recvseg`.
abbrev pub buf_size : ℕ
buf_size = 1526

abbrev pub bang : ℕ
bang = b'!'

abbrev pub amp : ℕ
amp = b'&'

abbrev pub hash : ℕ
hash = b'#'

-- `sendseg`: whether it returns 1, and the bytes that reach the connection. `sends i` tells whether
-- the i-th call of send(2) succeeds; one that does takes all its bytes.
unfoldable pub sendseg : (ℕ → Bool) → List ℕ → Bool × List ℕ
sendseg sends seg =
    if sends 0
    then if sends 1
      then if sends 2
        then (true, (bang ∷ amp ∷ []) ++ (seg ++ (bang ∷ hash ∷ [])))
        else (false, (bang ∷ amp ∷ []) ++ seg)
      else (false, bang ∷ amp ∷ [])
    else (false, [])

-- `seglost`, from the value that rand(3) returns.
unfoldable pub seglost : ℕ → Bool
seglost random = ltb (random % 100) 5

-- The variable `state` of `recvseg`, 0 to 3.
pub data FrameState : Type 0 where
  start seen_bang body body_bang : FrameState

pub record Receiver : Type 0 where
  pub state : FrameState
  pub buf : ℕ → ℕ
  pub idx : ℕ

-- What one byte leads to: another round of the loop, the end of a frame (the receiver is as it stands
-- after `state = 0; idx = 0;`), or a store past the end of `buf`.
pub data Read : Type 0 where
  more : Receiver → Read
  frame : Receiver → Read
  overflow : Read

-- buf[idx] = c; idx++;
unfoldable pub put : ℕ → FrameState → Receiver → Read
put c s r =
    if ltb r.idx buf_size
    then more (record { state = s; buf = update r.buf r.idx c; idx = r.idx + 1 })
    else overflow

-- The same store, with the reset that ends a frame.
unfoldable pub finish : ℕ → Receiver → Read
finish c r =
    if ltb r.idx buf_size
    then frame (record { state = start; buf = update r.buf r.idx c; idx = 0 })
    else overflow

-- The body of the loop up to the call of `seglost`.
unfoldable pub read_byte : FrameState → ℕ → Receiver → Read
read_byte start c r = more (if c == bang then record r { state = seen_bang } else r)
read_byte seen_bang c r =
    more (if c == amp then record r { state = body } else record r { state = start })
read_byte body c r = if c == bang then put c body_bang r else put c body r
read_byte body_bang c r =
    if c == hash then finish c r else if c == bang then put c body_bang r else put c body r

-- What `recvseg` returns: -1 when the connection ends, or 1 with the buffer that is copied to the
-- caller (its first `seg_size` bytes) and the bytes and random values not yet used; or the fault.
pub data Received : Type 0 where
  closed : Received
  segment : (ℕ → ℕ) → List ℕ → ℕ → Received
  fault : Received

-- The loop over the bytes that recv(2) returns; `rand n` is the value of the n-th call of rand(3).
unfoldable pub receive : (ℕ → ℕ) → ℕ → List ℕ → Receiver → Received
receive rand n [] r = closed
receive rand n (c ∷ cs) r = elim (read_byte r.state c r) [
  | more r' ↦ receive rand n cs r'
  | frame r' ↦
      (let again = receive rand (n + 1) cs r' in
        if seglost (rand n) then again else segment r'.buf cs (n + 1))
  | overflow ↦ fault
]

-- `recvseg`: a call begins outside any frame; the array `buf` holds what the stack held.
unfoldable pub recvseg : (ℕ → ℕ) → ℕ → (ℕ → ℕ) → List ℕ → Received
recvseg rand n garbage cs = receive rand n cs (record { state = start; buf = garbage; idx = 0 })
