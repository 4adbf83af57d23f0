-- ===== src/Raknet/Packet/Wire/Fields.antt =====
-- Each reader of crates/raknet/src/packet.rs takes back the field that its writer appends.
use rust_mine.Base.{
  ℕ, ◌-◌, ◌^◌, ◌<◌, ◌≡◌, refl, ap, ◌∙◌, List, ◌∷◌, ◌++◌, length, take, append_assoc, arith,
  ltb-false,
}
use rust_mine.Base.Int.{ℤ, IsI64, to_bits, of_bits, of_bits-to_bits64, to_bits64-lt}
use rust_mine.Base.Bytes.{IsByte, to_be_bytes, to_le_bytes, from-to_be_bytes}
use rust_mine.Base.Result.{ok, err}
use rust_mine.Raknet.Packet.{magic, SocketAddr, v4, v6, invalid_ip_version}
use rust_mine.Raknet.Packet.Wire.{
  read_u8, read_u16_be, read_u24_le, read_u32_be, read_i64_be, read_magic, read_address, write_u8,
  Read, write_u16_be, write_address,
}

pub read-u16_be :
    (v : ℕ) (rest : List ℕ) → v < 2 ^ 16 → read_u16_be (to_be_bytes 2 v ++ rest) ≡ ok (v, rest)
unfolding read_u16_be
read-u16_be v rest h = ground arith

pub read-u24_le :
    (v : ℕ) (rest : List ℕ)
    → v < 2 ^ 24
    → read_u24_le (take 3 (to_le_bytes 4 v) ++ rest) ≡ ok (v, rest)
unfolding read_u24_le
read-u24_le v rest h = ground arith

pub read-u32_be :
    (v : ℕ) (rest : List ℕ) → v < 2 ^ 32 → read_u32_be (to_be_bytes 4 v ++ rest) ≡ ok (v, rest)
unfolding read_u32_be
read-u32_be v rest h = ground arith

pub read-i64_be :
    (v : ℤ) (rest : List ℕ)
    → IsI64 v
    → read_i64_be (to_be_bytes 8 (to_bits (2 ^ 63) v) ++ rest) ≡ ok (v, rest)
unfolding read_i64_be
read-i64_be v rest h =
    let bits : ℕ = to_bits (2 ^ 63) v in
    rw (ltb-false (length (to_be_bytes 8 bits ++ rest)) 8 (omega arith)) (
      ap (λ (w : ℕ). read_as w) (from-to_be_bytes 8 bits (to_bits64-lt v h))
      ∙ ap (λ (w : ℤ). ok (w, rest)) (of_bits-to_bits64 v h))
  where
    read_as : ℕ → Read ℤ
    read_as w = ok (of_bits (2 ^ 63) w, rest)

pub read-magic : (rest : List ℕ) → read_magic (magic ++ rest) ≡ ok (tt, rest)
unfolding read_magic
read-magic rest = rw (ltb-false (length (magic ++ rest)) 16 (omega arith))

-- What `write_address` appends.
abbrev pub address_bytes : SocketAddr → List ℕ
address_bytes (v4 a b c d port) =
    4 ∷ (255 - a) ∷ (255 - b) ∷ (255 - c) ∷ (255 - d) ∷ to_be_bytes 2 port
address_bytes (v6 ip port) = 6 ∷ 0 ∷ 0 ∷ 0 ∷ 0 ∷ to_be_bytes 2 port

pub write_address-eq :
    (buf : List ℕ) (a : SocketAddr) → write_address buf a ≡ buf ++ address_bytes a
unfolding write_address write_u8 write_u16_be
write_address-eq buf (v4 a b c d port) = simp append_assoc
write_address-eq buf (v6 ip port) = simp append_assoc

-- An IPv4 address with four byte octets and a u16 port.
abbrev pub IsAddr : SocketAddr → Type 0
IsAddr (v4 a b c d port) = IsByte a × IsByte b × IsByte c × IsByte d × (port < 2 ^ 16)
IsAddr (v6 ip port) = ⊥

pub read-address :
    (a : SocketAddr) (rest : List ℕ)
    → IsAddr a
    → read_address (address_bytes a ++ rest) ≡ ok (a, rest)
unfolding read_address read_u8
read-address (v4 a b c d port) rest h = ground arith
read-address (v6 ip port) rest h = absurd h

-- An IPv6 address is written in a form that the reader refuses.
pub read-address_v6 :
    (ip port : ℕ) (rest : List ℕ)
    → read_address (address_bytes (v6 ip port) ++ rest) ≡ err (invalid_ip_version 6)
unfolding read_address read_u8
read-address_v6 ip port rest = refl
