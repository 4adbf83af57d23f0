-- ===== src/Server/Session/Reading.antt =====
-- What crates/server/src/session.rs makes of the bodies that clients send.
use rust_mine.Base.{
  ℕ, ◌+◌, ◌*◌, ◌%◌, ◌^◌, ◌<◌, bit_and, bit_or, leb, ◌==◌, ==_iff, ltb-false, ◌≡◌, refl, sym, ap,
  ◌∙◌, inl, inr, Bool-cases, List, [], ◌∷◌, ◌++◌, length, take, drop, length-append, drop-append,
  append_assoc, none, some, arith,
}
use rust_mine.Base.Int.{ℤ, pos, IsI32}
use rust_mine.Base.Bits.{bit_and-mask}
use rust_mine.Nbt.Varint.{
  read_loop, read_var_u32, read_var_i32, map_read, write_var_u32, write_var_i32, zigzag_decode_i32,
}
use rust_mine.Nbt.Varint.Bounds.{write_var_u32_shape}
use rust_mine.Nbt.Varint.RoundTrip.{read-write_var_u32, read-write_var_i32}
use rust_mine.Nbt.Varint.Zigzag.{decode_i32-zigzag}
use rust_mine.Protocol.{write_string}
use rust_mine.Protocol.Id
use rust_mine.Protocol.Batch.RoundTrip.{write_string-eq}
use rust_mine.Protocol.Interaction.{got_int}
use rust_mine.Server.Session.{
  Session, spawned, after_text, handle_spawned_packet, packet_in_state, on_packet,
}
use rust_mine.Server.Session.Steps.{on_packet-at}
use rust_mine.Server.Session.Extract.{
  find_subslice, needle, quote, to_text, undo_zigzag, decode_loop, decode_varint_at,
  extract_offline_username, extract_chat_message, extract_command,
}

undo_zigzag-i32 : (v : ℕ) → undo_zigzag v ≡ zigzag_decode_i32 v
unfolding undo_zigzag zigzag_decode_i32
undo_zigzag-i32 v = elim (Bool-cases (bit_and v 1 == 0)) [
  | inl even ↦ rw ((==_iff (bit_and v 1) 0).0 even) refl
  | inr odd ↦ let one : bit_and v 1 ≡ 1 = ground (arith, bit_and-mask 1 v, odd) in rw one refl
]

decode_loop-read_loop :
    (body : List ℕ) (result shift : ℕ)
    → decode_loop body result shift
      ≡ got_int (map_read zigzag_decode_i32 (read_loop 32 35 body result shift))
unfolding decode_loop read_loop
decode_loop-read_loop [] result shift = refl
decode_loop-read_loop (b ∷ rest) result shift = elim (Bool-cases (leb 35 shift)) [
  | inl long ↦ rw long refl
  | inr short ↦ elim (Bool-cases (bit_and b 0x80 == 0)) [
    | inl last ↦
        rw (short, last)
          (ap (λ (v : ℤ). some (v, rest))
            (undo_zigzag-i32 (bit_or result (bit_and b 0x7f * 2 ^ shift % 2 ^ 32))))
    | inr more ↦
        rw (short, more)
          (decode_loop-read_loop rest (bit_or result (bit_and b 0x7f * 2 ^ shift % 2 ^ 32))
            (shift + 7))
  ]
]

-- decode_varint_at reads every body as read_var_i32 does: the same value and the same bytes behind
-- it, or an error where that gives one.
pub decode_varint_at-read_var_i32 :
    (body : List ℕ) → decode_varint_at body ≡ got_int (read_var_i32 body)
unfolding decode_varint_at read_var_i32 read_var_u32
decode_varint_at-read_var_i32 body = decode_loop-read_loop body 0 0

-- decode_varint_at reads back every i32 that write_var_i32 wrote, and leaves what follows.
pub decode_varint_at-write_var_i32 :
    (v : ℤ) (rest : List ℕ)
    → IsI32 v
    → decode_varint_at (write_var_i32 [] v ++ rest) ≡ some (v, rest)
decode_varint_at-write_var_i32 v rest h =
    decode_varint_at-read_var_i32 (write_var_i32 [] v ++ rest)
    ∙ ap got_int (read-write_var_i32 v rest h)

-- A length that was written unsigned is read as half of it.
halved_length :
    (m : ℕ) (rest : List ℕ)
    → 2 * m < 2 ^ 32
    → decode_varint_at (write_var_u32 [] (2 * m) ++ rest) ≡ some (pos m, rest)
halved_length m rest h =
    decode_varint_at-read_var_i32 (write_var_u32 [] (2 * m) ++ rest)
    ∙ unfold read_var_i32 in
      ap (λ r. got_int (map_read zigzag_decode_i32 r)) (read-write_var_u32 (2 * m) rest h)
      ∙ ap (λ (v : ℤ). some (v, rest)) (decode_i32-zigzag (pos m) (omega arith))

-- A text of 2m bytes, at least 2 and fewer than 2^32, written with write_string is cut by
-- extract_command to its first m bytes, which are given if they are UTF-8.
pub extract_command-write_string :
    (s rest : List ℕ) (m : ℕ)
    → length s ≡ 2 * m
    → 0 < m
    → 2 * m < 2 ^ 32
    → extract_command (write_string [] s ++ rest) ≡ some (to_text (take m (s ++ rest)))
unfolding extract_command
extract_command-write_string s rest m n some_text fits =
    let count = write_var_u32 [] (2 * m) in
    let written : write_string [] s ++ rest ≡ count ++ (s ++ rest) =
      ap (λ (t : List ℕ). t ++ rest) (write_string-eq s (omega (arith, n)))
      ∙ ap (λ (t : ℕ). (write_var_u32 [] t ++ s) ++ rest) n
      ∙ append_assoc count s rest in
    rw
      (
        written,
        ltb-false (length (count ++ (s ++ rest))) 2 (
            omega (
              arith,
              length-append count (s ++ rest),
              length-append s rest,
              (write_var_u32_shape (2 * m) fits).1,
            )),
        halved_length m (s ++ rest) fits,
        ltb-false (length (s ++ rest)) m (omega (arith, length-append s rest)),
      )
      refl

-- A length of -1 makes the slice end before it starts.
text_panics :
    (b : ℕ) (rest : List ℕ)
    → (extract_chat_message (1 ∷ b ∷ rest) ≡ none) × (extract_command (1 ∷ b ∷ rest) ≡ none)
unfolding extract_chat_message extract_command undo_zigzag decode_loop
text_panics b rest = (ground arith, ground arith)

-- A spawned session panics on every chat message and every command request of two bytes or more
-- whose first byte is 1.
pub on_packet-panics :
    (s : Session) (b : ℕ) (rest : List ℕ)
    → s.state ≡ spawned
    → (on_packet Id.chat_message (1 ∷ b ∷ rest) s ≡ none)
      × (on_packet Id.command_request (1 ∷ b ∷ rest) s ≡ none)
unfolding handle_spawned_packet packet_in_state
on_packet-panics s b rest at = (
  on_packet-at spawned Id.chat_message (1 ∷ b ∷ rest) s none at
      (ap (λ t. after_text t s) (text_panics b rest).0),
  on_packet-at spawned Id.command_request (1 ∷ b ∷ rest) s none at
      (ap (λ t. after_text t s) (text_panics b rest).1),
)

-- A body whose first `displayName` is followed by `":"` gives the user name `:`, whatever name
-- comes behind.
pub extract_offline_username-colon :
    (pre rest : List ℕ)
    → find_subslice (pre ++ (needle ++ quote ∷ 58 ∷ quote ∷ rest)) needle ≡ some (length pre)
    → extract_offline_username (pre ++ (needle ++ quote ∷ 58 ∷ quote ∷ rest)) ≡ some (58 ∷ [])
unfolding extract_offline_username
extract_offline_username-colon pre rest found =
    let tail = quote ∷ 58 ∷ quote ∷ rest in
    let behind : drop (length pre + length needle) (pre ++ (needle ++ tail)) ≡ tail =
      ap (λ (t : ℕ). drop t (pre ++ (needle ++ tail))) (sym (length-append pre needle))
      ∙ ap (drop (length (pre ++ needle))) (sym (append_assoc pre needle tail))
      ∙ drop-append (pre ++ needle) tail in
    rw (found, behind) refl
