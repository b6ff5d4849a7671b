-- ===== src/Srt/Framing/Stream.antt =====
-- Round trips of `sendseg` and `recvseg`, and the segments that the framing cannot carry.
use code_snippet.Prelude.{
  ℕ, suc, ◌+◌, ◌≤◌, ◌<◌, ◌≡◌, sym, ◌∙◌, List, [], ◌∷◌, ◌++◌, Bool, true, false, length, arith, ap,
}
use mathlib.Core.List.{append_assoc}
use mathlib.Core.Path.{subst}
use code_snippet.Srt.Framing.{
  seg_size, buf_size, bang, amp, hash, sendseg, seglost, start, segment, fault, receive, recvseg,
}
use code_snippet.Srt.Framing.Frames.{
  Plain, load, read_array, read_array-load, complete, body_ends, body_overflows, frame_begins,
}

-- A segment that the framing can carry: it has the size of a `seg_t`, and no '#' in it follows a '!'.
abbrev pub Carried : List ℕ → Type 0
Carried seg = Plain false seg × (length seg ≡ seg_size)

-- The bytes that successive calls of `sendseg` put on the connection, where all calls of send(2)
-- succeed.
unfoldable pub wire : (ℕ → Bool) → List (List ℕ) → List ℕ
wire sends [] = []
wire sends (s ∷ ss) = (sendseg sends s).1 ++ wire sends ss

abbrev pub AllSent : (ℕ → Bool) → Type 0
AllSent sends = (sends 0 ≡ true) × (sends 1 ≡ true) × (sends 2 ≡ true)

sendseg-frame :
    (sends : ℕ → Bool) (seg : List ℕ)
    → AllSent sends
    → sendseg sends seg ≡ (true, bang ∷ amp ∷ (seg ++ (bang ∷ hash ∷ [])))
unfolding sendseg
sendseg-frame sends seg ok = rw (ok.0, ok.1, ok.2)

frame-append :
    (seg rest : List ℕ)
    → (bang ∷ amp ∷ (seg ++ (bang ∷ hash ∷ []))) ++ rest
      ≡ bang ∷ amp ∷ (seg ++ (bang ∷ hash ∷ rest))
frame-append seg rest = simp append_assoc

-- The frame of a segment, read outside any frame.
one_frame :
    (sends : ℕ → Bool) (rand : ℕ → ℕ) (n : ℕ) (seg rest : List ℕ) (b : ℕ → ℕ)
    → AllSent sends
    → Carried seg
    → receive rand n ((sendseg sends seg).1 ++ rest) (record { state = start; buf = b; idx = 0 })
      ≡ complete rand n rest (load b 0 (seg ++ (bang ∷ hash ∷ [])))
one_frame sends rand n seg rest b ok c = rw (sendseg-frame sends seg ok) (
    rw (frame-append seg rest) (
      frame_begins rand n (seg ++ (bang ∷ hash ∷ rest)) b
      ∙ body_ends rand n false seg rest b 0 c.0 (omega (arith, c.1))))

abbrev pub AllLost : (ℕ → ℕ) → ℕ → List (List ℕ) → Type 0
AllLost rand n [] = Unit
AllLost rand n (s ∷ ss) = (seglost (rand n) ≡ true) × Carried s × AllLost rand (n + 1) ss

-- The buffer after the frames of the segments have been read into it.
abbrev after_frames : (ℕ → ℕ) → List (List ℕ) → ℕ → ℕ
after_frames b [] = b
after_frames b (s ∷ ss) = after_frames (load b 0 (s ++ (bang ∷ hash ∷ []))) ss

lost_index : (n : ℕ) (ss : List (List ℕ)) → n + 1 + length ss ≡ n + suc (length ss)
lost_index n ss = omega arith

receive_first :
    (sends : ℕ → Bool) (rand : ℕ → ℕ) (n : ℕ) (lost : List (List ℕ)) (seg : List ℕ)
    (later : List (List ℕ)) (b : ℕ → ℕ)
    → AllSent sends
    → AllLost rand n lost
    → Carried seg
    → seglost (rand (n + length lost)) ≡ false
    → receive rand n
        (wire sends (lost ++ (seg ∷ later)))
        (record { state = start; buf = b; idx = 0 })
      ≡ segment
          (load (after_frames b lost) 0 (seg ++ (bang ∷ hash ∷ [])))
          (wire sends later)
          (n + length lost + 1)
unfolding wire
receive_first sends rand n [] seg later b ok l c kept =
    one_frame sends rand n seg (wire sends later) b ok c
    ∙ rw now (
        ap (λ m. segment (load b 0 (seg ++ (bang ∷ hash ∷ []))) (wire sends later) (m + 1))
          (sym here))
  where
    here : n + 0 ≡ n
    here = omega arith

    now : seglost (rand n) ≡ false
    now = subst (λ m. seglost (rand m) ≡ false) here kept
receive_first sends rand n (s ∷ ss) seg later b ok l c kept =
    one_frame sends rand n s (wire sends (ss ++ (seg ∷ later))) b ok l.1
    ∙ rw l.0 (
        receive_first sends rand (n + 1) ss seg later b' ok l.2 c
          (subst (λ m. seglost (rand m) ≡ false) (sym (lost_index n ss)) kept)
        ∙ ap
            (λ m.
              segment (load (after_frames b' ss) 0 (seg ++ (bang ∷ hash ∷ []))) (wire sends later)
                (m + 1))
            (lost_index n ss))
  where
    b' : ℕ → ℕ
    b' = load b 0 (s ++ (bang ∷ hash ∷ []))

-- What a call of `recvseg` returns on a stream of frames: the first segment that `seglost` does not
-- drop, byte for byte, with the frames after it left on the connection and one random value used for
-- each frame read. The segments are of the size of a `seg_t` and hold no '!#', and the sender's calls
-- all succeeded.
pub recvseg_first_kept :
    (sends : ℕ → Bool) (rand : ℕ → ℕ) (n : ℕ) (lost : List (List ℕ)) (seg : List ℕ)
    (later : List (List ℕ)) (garbage : ℕ → ℕ)
    → AllSent sends
    → AllLost rand n lost
    → Carried seg
    → seglost (rand (n + length lost)) ≡ false
    → (buf : ℕ → ℕ) × (recvseg rand n garbage (wire sends (lost ++ (seg ∷ later)))
        ≡ segment buf (wire sends later) (n + length lost + 1))
      × (read_array buf 0 seg_size ≡ seg)
unfolding recvseg
recvseg_first_kept sends rand n lost seg later garbage ok l c kept = (
  load (after_frames garbage lost) 0 (seg ++ (bang ∷ hash ∷ [])),
  receive_first sends rand n lost seg later garbage ok l c kept,
  subst (λ m. read_array (load (after_frames garbage lost) 0 (seg ++ (bang ∷ hash ∷ []))) 0 m ≡ seg)
      c.1 (read_array-load (after_frames garbage lost) 0 seg (bang ∷ hash ∷ [])),
)

-- When the sender's calls all succeed and `seglost` does not drop the frame, a segment whose first '!#'
-- comes where it and the bytes before it fit a `seg_t` is cut there: `recvseg` returns with the bytes up to
-- the mark in the buffer, and takes what follows in the segment for the beginning of the next frame.
pub recvseg_cuts_at_mark :
    (sends : ℕ → Bool) (rand : ℕ → ℕ) (n : ℕ) (front tail rest : List ℕ) (garbage : ℕ → ℕ)
    → AllSent sends
    → Plain false front
    → length front + 2 ≤ seg_size
    → seglost (rand n) ≡ false
    → (buf : ℕ → ℕ) × (recvseg rand n garbage
          ((sendseg sends (front ++ (bang ∷ hash ∷ tail))).1 ++ rest)
        ≡ segment buf (tail ++ (bang ∷ hash ∷ rest)) (n + 1))
      × (read_array buf 0 (length front) ≡ front)
unfolding recvseg
recvseg_cuts_at_mark sends rand n front tail rest garbage ok plain fits kept = (
  load garbage 0 (front ++ (bang ∷ hash ∷ [])),
  rw (sendseg-frame sends (front ++ (bang ∷ hash ∷ tail)) ok) (
      rw (split) (
        frame_begins rand n (front ++ (bang ∷ hash ∷ (tail ++ (bang ∷ hash ∷ rest)))) garbage
        ∙ body_ends rand n false front (tail ++ (bang ∷ hash ∷ rest)) garbage 0 plain (omega arith)
        ∙ rw kept)),
  read_array-load garbage 0 front (bang ∷ hash ∷ []),
)
  where
    split :
        (bang ∷ amp ∷ ((front ++ (bang ∷ hash ∷ tail)) ++ (bang ∷ hash ∷ []))) ++ rest
        ≡ bang ∷ amp ∷ (front ++ (bang ∷ hash ∷ (tail ++ (bang ∷ hash ∷ rest))))
    split = simp append_assoc

-- After '!&', bytes that hold no '!#' and are more than `buf` has room for are stored past its end.
pub recvseg_overflows :
    (rand : ℕ → ℕ) (n : ℕ) (xs rest : List ℕ) (garbage : ℕ → ℕ)
    → Plain false xs
    → buf_size < length xs
    → recvseg rand n garbage (bang ∷ amp ∷ (xs ++ rest)) ≡ fault
unfolding recvseg
recvseg_overflows rand n xs rest garbage plain long =
    frame_begins rand n (xs ++ rest) garbage
    ∙ body_overflows rand n false xs rest garbage 0 plain (omega arith) (omega arith)
