-- ===== src/Protocol/Batch/RoundTrip.antt =====
-- Round trips of crates/protocol/src/batch.rs and codec.rs.
use rust_mine.Base.{
  ℕ, zero, suc, ◌%◌, ◌^◌, ◌≤◌, ◌<◌, ltb, ltb-false, true, false, ◌≡◌, refl, sym, ap, ◌∙◌, List, [],
  ◌∷◌, ◌++◌, length, length-append, take-append, drop-append, All, append_assoc, append-nil, arith,
}
use native.Mathlib.Nat.{mod-eq_of_lt}
use rust_mine.Base.Result.{ok, ◌>>=◌}
use rust_mine.Nbt.Varint.{read_loop, read_var_u32, write_var_u32}
use rust_mine.Nbt.Varint.Bounds.{write_var_u32_shape}
use rust_mine.Nbt.Varint.RoundTrip.{read-write_var_u32}
use rust_mine.Protocol.{take_string, read_string, write_string, is_utf8}
use rust_mine.Protocol.Batch.{
  take_packet, append_packets, encode_batch, decode_one, decode_packets, decode_batch,
}

-- A varint is written behind what is in the buffer.
pub write_var_u32-append : (buf : List ℕ) (v : ℕ) → write_var_u32 buf v ≡ buf ++ write_var_u32 [] v
unfolding write_var_u32
write_var_u32-append buf v = refl

-- A packet with its length in front.
abbrev pub prefixed : List ℕ → List ℕ
prefixed pkt = write_var_u32 [] (length pkt) ++ pkt

abbrev batch_body : List (List ℕ) → List ℕ
batch_body [] = []
batch_body (pkt ∷ packets) = prefixed pkt ++ batch_body packets

abbrev pub IsPacket : List ℕ → Type 0
IsPacket pkt = length pkt < 2 ^ 32

append_packets-eq :
    (body : List ℕ) (packets : List (List ℕ))
    → All IsPacket packets
    → append_packets body packets ≡ body ++ batch_body packets
unfolding append_packets
append_packets-eq body [] h = sym (append-nil body)
append_packets-eq body (pkt ∷ packets) h =
    append_packets-eq (write_var_u32 body (length pkt % 2 ^ 32) ++ pkt) packets h.1
    ∙ ap (λ buf. (buf ++ pkt) ++ batch_body packets)
        (ap (write_var_u32 body) (mod-eq_of_lt {n = length pkt} {m = 2 ^ 32} h.0)
          ∙ write_var_u32-append body (length pkt))
    ∙ append_assoc (body ++ write_var_u32 [] (length pkt)) pkt (batch_body packets)
    ∙ append_assoc body (write_var_u32 [] (length pkt)) (pkt ++ batch_body packets)
    ∙ ap (◌++◌ body) (sym (append_assoc (write_var_u32 [] (length pkt)) pkt (batch_body packets)))

read-prefixed :
    (s rest : List ℕ)
    → length s < 2 ^ 32
    → read_var_u32 (prefixed s ++ rest) ≡ (ok (length s), s ++ rest)
read-prefixed s rest h =
    rw (append_assoc (write_var_u32 [] (length s)) s rest)
      (read-write_var_u32 (length s) (s ++ rest) h)

-- Behind its length a string is all there.
long_enough : (s rest : List ℕ) → ltb (length (s ++ rest)) (length s) ≡ false
long_enough s rest = ltb-false (length (s ++ rest)) (length s) (omega (arith, length-append s rest))

decode_one-prefixed :
    (pkt rest : List ℕ) → IsPacket pkt → decode_one (prefixed pkt ++ rest) ≡ ok (pkt, rest)
unfolding decode_one
decode_one-prefixed pkt rest h =
    ap take_packet (read-prefixed pkt rest h)
    ∙ rw (long_enough pkt rest, take-append pkt rest, drop-append pkt rest) refl

decode_packets_step :
    (rounds : ℕ) (buf packet rest : List ℕ)
    → decode_one buf ≡ ok (packet, rest)
    → decode_packets (suc rounds) buf
      ≡ (decode_packets rounds rest >>= λ (packets : List (List ℕ)). ok (packet ∷ packets))
unfolding decode_packets
decode_packets_step rounds [] packet rest e = unfold decode_one read_var_u32 read_loop in cc
decode_packets_step rounds (b ∷ buf) packet rest e = rw e

one-le-length : (pkt : List ℕ) → IsPacket pkt → 1 ≤ length (prefixed pkt)
one-le-length pkt h = omega (
  arith,
  (write_var_u32_shape (length pkt) h).1,
  length-append (write_var_u32 [] (length pkt)) pkt,
)

decode_packets-body :
    (rounds : ℕ) (packets : List (List ℕ))
    → All IsPacket packets
    → length (batch_body packets) ≤ rounds
    → decode_packets rounds (batch_body packets) ≡ ok packets
decode_packets-body zero [] h room = unfold decode_packets in refl
decode_packets-body (suc rounds) [] h room = unfold decode_packets in refl
decode_packets-body zero (pkt ∷ packets) h room =
    absurd (omega (arith, one-le-length pkt h.0, length-append (prefixed pkt) (batch_body packets)))
decode_packets-body (suc rounds) (pkt ∷ packets) h room =
    decode_packets_step rounds (prefixed pkt ++ batch_body packets) pkt (batch_body packets)
      (decode_one-prefixed pkt (batch_body packets) h.0)
    ∙ rw (
        decode_packets-body rounds packets h.1
          (omega (arith, one-le-length pkt h.0, length-append (prefixed pkt) (batch_body packets))))

-- A batch of packets whose lengths fit a u32 is read back as those packets in order.
pub decode-encode_batch :
    (packets : List (List ℕ))
    → All IsPacket packets
    → decode_batch (encode_batch packets) ≡ ok packets
unfolding decode_batch encode_batch
decode-encode_batch packets h =
    rw (append_packets-eq [] packets h)
      (decode_packets-body (length (batch_body packets)) packets h (omega arith))

-- A string that fits is written as its length and itself.
pub write_string-eq : (s : List ℕ) → length s < 2 ^ 32 → write_string [] s ≡ prefixed s
unfolding write_string
write_string-eq s h = rw (mod-eq_of_lt {n = length s} {m = 2 ^ 32} h) refl

read_string-prefixed :
    (s rest : List ℕ)
    → length s < 2 ^ 32
    → is_utf8 s ≡ true
    → read_string (prefixed s ++ rest) ≡ (ok s, rest)
unfolding read_string
read_string-prefixed s rest h u =
    ap take_string (read-prefixed s rest h)
    ∙ rw (long_enough s rest, take-append s rest, drop-append s rest, u) refl

-- A UTF-8 string whose length fits a u32 is read back, and the cursor stands behind it.
read-write_string :
    (s rest : List ℕ)
    → length s < 2 ^ 32
    → is_utf8 s ≡ true
    → read_string (write_string [] s ++ rest) ≡ (ok s, rest)
read-write_string s rest h u = rw (write_string-eq s h) (read_string-prefixed s rest h u)
