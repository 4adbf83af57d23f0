-- ===== src/Raknet/Packet/Wire.antt =====
-- The reading and writing helpers of crates/raknet/src/packet.rs. A buffer with its cursor is the
-- list of the bytes from the cursor on.
pub mod Fields
use rust_mine.Base.{
  ℕ, ◌+◌, ◌-◌, ◌*◌, ◌/◌, ◌%◌, ◌^◌, ◌<◌, ltb, ◌==◌, not, if◌then◌else◌, Bool, true, false, List, [],
  ◌∷◌, ◌++◌, length, take, drop,
}
use rust_mine.Base.Int.{ℤ, to_bits, of_bits}
use rust_mine.Base.Bytes.{from_be_bytes, from_le_bytes, to_be_bytes, to_le_bytes}
use rust_mine.Base.Result.{Result, ok, err, ◌>>=◌}
use rust_mine.Raknet.Packet.{
  magic, PacketError, buffer_too_short, invalid_magic, invalid_ip_version, SocketAddr, v4, v6,
}

abbrev pub Read : Type 0 → Type 0
Read A = Result PacketError (A × List ℕ)

unfoldable pub read_u8 : List ℕ → Read ℕ
read_u8 [] = err buffer_too_short
read_u8 (b ∷ buf) = ok (b, buf)

unfoldable pub read_u16_be : List ℕ → Read ℕ
read_u16_be buf =
    if ltb (length buf) 2 then err buffer_too_short else ok (from_be_bytes (take 2 buf), drop 2 buf)

-- Three bytes give a number of 24 bits.
unfoldable pub read_u24_le : List ℕ → Read ℕ
read_u24_le buf =
    if ltb (length buf) 3
    then err buffer_too_short
    else ok (from_le_bytes (take 3 buf) % 2 ^ 24, drop 3 buf)

unfoldable pub read_u32_be : List ℕ → Read ℕ
read_u32_be buf =
    if ltb (length buf) 4 then err buffer_too_short else ok (from_be_bytes (take 4 buf), drop 4 buf)

unfoldable pub read_i64_be : List ℕ → Read ℤ
read_i64_be buf =
    if ltb (length buf) 8
    then err buffer_too_short
    else ok (of_bits (2 ^ 63) (from_be_bytes (take 8 buf)), drop 8 buf)

-- Equality of byte slices.
abbrev pub bytes_eq : List ℕ → List ℕ → Bool
bytes_eq [] [] = true
bytes_eq [] (y ∷ ys) = false
bytes_eq (x ∷ xs) [] = false
bytes_eq (x ∷ xs) (y ∷ ys) = if x == y then bytes_eq xs ys else false

unfoldable pub read_magic : List ℕ → Read (Unit {0})
read_magic buf =
    if ltb (length buf) 16
    then err buffer_too_short
    else if not (bytes_eq (take 16 buf) magic)
    then err invalid_magic
    else ok (tt, drop 16 buf)

-- `!octet` on a byte.
abbrev pub flip : ℕ → ℕ
flip b = 255 - b

-- The six bytes of an IPv4 address and port, already known to be there.
abbrev read_v4 : List ℕ → Read SocketAddr
read_v4 (a ∷ b ∷ c ∷ d ∷ buf) =
    ok (v4 (flip a) (flip b) (flip c) (flip d) (from_be_bytes (take 2 buf)), drop 2 buf)
read_v4 _ = err buffer_too_short

unfoldable pub read_address : List ℕ → Read SocketAddr
read_address buf = do
  (version, buf) ← read_u8 buf
  if version == 4
      then if ltb (length buf) 6 then err buffer_too_short else read_v4 buf
      else err (invalid_ip_version version)

unfoldable pub write_u8 : List ℕ → ℕ → List ℕ
write_u8 buf val = buf ++ val ∷ []

unfoldable pub write_u16_be : List ℕ → ℕ → List ℕ
write_u16_be buf val = buf ++ to_be_bytes 2 val

unfoldable pub write_u32_be : List ℕ → ℕ → List ℕ
write_u32_be buf val = buf ++ to_be_bytes 4 val

unfoldable pub write_u24_le : List ℕ → ℕ → List ℕ
write_u24_le buf val = buf ++ take 3 (to_le_bytes 4 val)

unfoldable pub write_i64_be : List ℕ → ℤ → List ℕ
write_i64_be buf val = buf ++ to_be_bytes 8 (to_bits (2 ^ 63) val)

unfoldable pub write_magic : List ℕ → List ℕ
write_magic buf = buf ++ magic

unfoldable pub write_address : List ℕ → SocketAddr → List ℕ
write_address buf (v4 a b c d port) =
    let buf₁ = write_u8 buf 4 in
    let buf₂ = write_u8 (write_u8 (write_u8 (write_u8 buf₁ (flip a)) (flip b)) (flip c)) (flip d) in
    write_u16_be buf₂ port
write_address buf (v6 ip port) =
    let buf₁ = write_u8 buf 6 in
    let buf₂ = write_u8 (write_u8 (write_u8 (write_u8 buf₁ 0) 0) 0) 0 in write_u16_be buf₂ port
