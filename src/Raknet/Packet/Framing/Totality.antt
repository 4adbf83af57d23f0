-- ===== src/Raknet/Packet/Framing/Totality.antt =====
-- `decode_datagram` of crates/raknet/src/packet.rs on any input: its loop ends, and what it takes.
use rust_mine.Base.{
  ℕ, zero, suc, ◌≤◌, eq_false, ◌≡◌, refl, ap, List, [], ◌∷◌, length, length-drop, drop, inl, inr,
  arith,
}
use rust_mine.Base.Result.{Result, ok, ◌>>=◌, Result-cases}
use rust_mine.Raknet.Packet.{Frame, PacketError}
use rust_mine.Raknet.Packet.Framing.{decode_frame, decode_frames}

-- Any two numbers of rounds that cover the buffer give the same answer.
decode_frames_rounds :
    (k l : ℕ) (buf : List ℕ)
    → length buf ≤ k
    → length buf ≤ l
    → decode_frames k buf ≡ decode_frames l buf
unfolding decode_frames
decode_frames_rounds zero zero buf h h' = refl
decode_frames_rounds zero (suc l) [] h h' = refl
decode_frames_rounds zero (suc l) (b ∷ buf) h h' = absurd (omega arith)
decode_frames_rounds (suc k) zero [] h h' = refl
decode_frames_rounds (suc k) zero (b ∷ buf) h h' = absurd (omega arith)
decode_frames_rounds (suc k) (suc l) [] h h' = refl
decode_frames_rounds (suc k) (suc l) (b ∷ buf) h h' = elim (Result-cases (decode_frame (b ∷ buf))) [
  | inl ((frame, zero), e) ↦ rw e
  | inl ((frame, suc n), e) ↦
      rw (e, eq_false (suc n) 0 (omega arith))
        (ap (λ (r : Result PacketError (List Frame)). r >>= λ (fs : List Frame). ok (frame ∷ fs))
          (decode_frames_rounds k l (drop n buf) (omega (arith, length-drop n buf))
            (omega (arith, length-drop n buf))))
  | inr (x, e) ↦ rw e
]

-- As many rounds as there are bytes are enough for the loop of decode_datagram: more rounds change
-- nothing.
pub decode_frames_enough :
    (k : ℕ) (buf : List ℕ) → length buf ≤ k → decode_frames k buf ≡ decode_frames (length buf) buf
decode_frames_enough k buf h = decode_frames_rounds k (length buf) buf h (omega arith)
