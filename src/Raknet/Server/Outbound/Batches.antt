-- ===== src/Raknet/Server/Outbound/Batches.antt =====
-- How the outer and the inner loop of `build_datagrams` share the frames out.
use rust_mine.Base.{
  ℕ, zero, suc, ◌+◌, ◌%◌, ◌^◌, ◌≤◌, ◌<◌, ◌≡◌, refl, sym, ap, ◌∙◌, true, false, Bool, inl, inr, ◌⊎◌,
  List, [], ◌∷◌, ◌++◌, length, map, append-nil, All, length-append, arith,
}
use mathlib.Core.Path.{subst}
use rust_mine.Base.Result.{ok}
use rust_mine.Raknet.Packet.{Frame, RaknetPacket}
use rust_mine.Raknet.Packet.Dispatch.{parse_packet}
use rust_mine.Raknet.Packet.Dispatch.RoundTrip.{parse-encode_datagram}
use rust_mine.Raknet.Packet.Framing.Layout.{IsFrame}
use rust_mine.Raknet.Packet.Framing.{encode_frame}
use rust_mine.Raknet.Packet.Framing.RoundTrip.{encode_datagram-eq, frames_bytes}
use rust_mine.Raknet.Connection.{Connection, PendingFrame}
use rust_mine.Raknet.Server.Outbound.{fill, send_frames, send_datagram, datagram}

-- Nothing is lost or moved by `fill`.
fill-append :
    (mtu size : ℕ) (started : Bool) (fs : List Frame)
    → (fill mtu size started fs).0 ++ (fill mtu size started fs).1 ≡ fs
unfolding fill
fill-append mtu size started [] = refl
fill-append mtu size started (f ∷ fs) =
    ground (arith, fill-append mtu (size + length (encode_frame f)) true fs)

-- The bytes of all frames.
abbrev pub total_bytes : List Frame → ℕ
total_bytes [] = 0
total_bytes (f ∷ fs) = length (encode_frame f) + total_bytes fs

fill_more-fits :
    (mtu size : ℕ) (fs : List Frame)
    → size ≤ mtu
    → size + total_bytes (fill mtu size true fs).0 ≤ mtu
unfolding fill
fill_more-fits mtu size [] h = omega arith
fill_more-fits mtu size (f ∷ fs) h =
    ground (arith, fill_more-fits mtu (size + length (encode_frame f)) fs)

fill_full : (mtu size : ℕ) (fs : List Frame) → mtu < size → length (fill mtu size true fs).0 ≤ 0
unfolding fill
fill_full mtu size [] h = omega arith
fill_full mtu size (f ∷ fs) h = ground arith

-- A datagram keeps to the MTU, unless it has one frame alone, which is too long itself.
abbrev pub Fits : ℕ → List Frame → Type 0
Fits mtu fs = (4 + total_bytes fs ≤ mtu) ⊎ (length fs ≡ 1)

fill-Fits : (mtu : ℕ) (f : Frame) (fs : List Frame) → Fits mtu (fill mtu 4 false (f ∷ fs)).0
unfolding fill
fill-Fits mtu f fs = ground (
  arith,
  fill_more-fits mtu (4 + length (encode_frame f)) fs,
  fill_full mtu (4 + length (encode_frame f)) fs,
)

fill-length :
    (mtu : ℕ) (f : Frame) (fs : List Frame) → length (fill mtu 4 false (f ∷ fs)).1 ≤ length fs
unfolding fill
fill-length mtu f fs = ground (
  arith,
  ap length (fill-append mtu (4 + length (encode_frame f)) true fs),
  length-append (fill mtu (4 + length (encode_frame f)) true fs).0
      (fill mtu (4 + length (encode_frame f)) true fs).1,
)

-- The datagrams `raws` carry the frames, in order, under consecutive numbers from `seq`, and each
-- keeps to the MTU or has one frame alone.
abbrev pub Sent : ℕ → ℕ → List (List ℕ) → List Frame → Type 0
Sent mtu seq [] fs = fs ≡ []
Sent mtu seq (raw ∷ raws) fs =
    (b : List Frame) × (left : List Frame) × (fs ≡ b ++ left)
    × (parse_packet raw ≡ ok (RaknetPacket.frame_set seq b))
    × ((length raw ≤ mtu) ⊎ (length b ≡ 1))
    × Sent mtu (seq + 1) raws left

total_bytes-eq : (fs : List Frame) → length (frames_bytes fs) ≡ total_bytes fs
total_bytes-eq [] = refl
total_bytes-eq (f ∷ fs) =
    omega (arith, length-append (encode_frame f) (frames_bytes fs), total_bytes-eq fs)

length-datagram : (seq : ℕ) (fs : List Frame) → length (datagram seq fs) ≡ 4 + total_bytes fs
length-datagram seq fs =
    ap length (encode_datagram-eq (record { sequence_number = seq; frames = fs }))
    ∙ omega (arith, total_bytes-eq fs)

All-split : (P : Frame → Type 0) (xs ys : List Frame) → All P (xs ++ ys) → All P xs × All P ys
All-split P [] ys h = (tt, h)
All-split P (x ∷ xs) ys h = let (p, q) = All-split P xs ys h.1 in ((h.0, p), q)

map-snoc :
    (xs : List PendingFrame) (x : PendingFrame) (ys : List (List ℕ))
    → map (λ p. p.raw_data) (xs ++ x ∷ []) ++ ys ≡ map (λ p. p.raw_data) xs ++ x.raw_data ∷ ys
map-snoc [] x ys = refl
map-snoc (y ∷ xs) x ys = ap (◌∷◌ y.raw_data) (map-snoc xs x ys)

-- Frames that fit the wire go out in datagrams that parse to all of them in order under
-- consecutive numbers, each within the MTU or of one frame alone; a round per frame is enough. The
-- numbers stay below 2^24.
pub send_frames-Sent :
    (rounds mtu : ℕ) (c : Connection) (rel_idx now : ℕ) (fs : List Frame)
    → length fs ≤ rounds
    → All IsFrame fs
    → c.send_seq + length fs < 2 ^ 24
    → Sent mtu c.send_seq (send_frames rounds mtu c rel_idx now fs).1 fs
unfolding send_frames
send_frames-Sent zero mtu c rel_idx now [] room h fits = refl
send_frames-Sent zero mtu c rel_idx now (f ∷ fs) room h fits = absurd (omega arith)
send_frames-Sent (suc rounds) mtu c rel_idx now [] room h fits = refl
send_frames-Sent (suc rounds) mtu c rel_idx now (f ∷ fs) room h fits =
    let taken = (fill mtu 4 false (f ∷ fs)).0 in
    let left = (fill mtu 4 false (f ∷ fs)).1 in
    let whole : f ∷ fs ≡ taken ++ left = sym (fill-append mtu 4 false (f ∷ fs)) in
    let (hs, hl) = All-split IsFrame taken left (subst (All IsFrame) whole h) in
    let next : (c.send_seq + 1) % 2 ^ 32 ≡ c.send_seq + 1 = omega arith in
    let shorter = fill-length mtu f fs in
    (
      taken,
      left,
      whole,
      parse-encode_datagram (record { sequence_number = c.send_seq; frames = taken }) hs
          (omega arith),
      elim (fill-Fits mtu f fs) [
        | inl short ↦ inl (omega (arith, short, length-datagram c.send_seq taken))
        | inr alone ↦ inr alone
      ],
      subst
          (λ n.
            Sent mtu n
              (send_frames rounds mtu (send_datagram c rel_idx now taken).0 rel_idx now left).1
              left)
          next
          (send_frames-Sent rounds mtu (send_datagram c rel_idx now taken).0 rel_idx now left
            (omega (arith, shorter)) hl (omega (arith, shorter, next))),
    )

-- Every datagram that is sent is kept, as it was sent, behind those that were pending.
send_frames-pending :
    (rounds mtu : ℕ) (c : Connection) (rel_idx now : ℕ) (fs : List Frame)
    → map (λ p. p.raw_data) (send_frames rounds mtu c rel_idx now fs).0.pending_frames
      ≡ map (λ p. p.raw_data) c.pending_frames ++ (send_frames rounds mtu c rel_idx now fs).1
unfolding send_frames
send_frames-pending zero mtu c rel_idx now fs =
    sym (append-nil (map (λ p. p.raw_data) c.pending_frames))
send_frames-pending (suc rounds) mtu c rel_idx now [] =
    sym (append-nil (map (λ p. p.raw_data) c.pending_frames))
send_frames-pending (suc rounds) mtu c rel_idx now (f ∷ fs) =
    let (taken, left) = fill mtu 4 false (f ∷ fs) in
    let (c₁, raw) = send_datagram c rel_idx now taken in
    let kept : PendingFrame = record {
      sequence_number = c.send_seq;
      reliable_index = rel_idx;
      raw_data = raw;
      send_time = now;
      retries = 0;
    } in
    send_frames-pending rounds mtu c₁ rel_idx now left
    ∙ map-snoc c.pending_frames kept (send_frames rounds mtu c₁ rel_idx now left).1
