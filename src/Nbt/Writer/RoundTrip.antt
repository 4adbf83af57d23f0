-- ===== src/Nbt/Writer/RoundTrip.antt =====
-- What a reader of little-endian NBT reads of a compound that `NbtWriter` of
-- crates/nbt/src/lib.rs writes.
use rust_mine.Base.{
  ℕ, zero, suc, ◌%◌, ◌^◌, ◌<◌, ◌≡◌, refl, sym, ap, ◌∙◌, Option, some, List, [], ◌∷◌, ◌++◌, map,
  append_assoc, length, take, take-append, drop-append, length-append, length-take, arith, All,
}
use rust_mine.Base.Int.{
  to_bits, of_bits, of_bits-to_bits32, of_bits-to_bits64, to_bits32-lt, to_bits64-lt,
}
use rust_mine.Base.Bytes.{to_le_bytes, length-to_le_bytes, from-to_le_bytes}
use rust_mine.Base.Maybe.{◌>>=◌}
use rust_mine.Nbt.Writer.{
  TagId, byte, int, long, float, string, from_u8, write_string, write_compound_header, write_end,
  write_byte_field, write_int_field, write_long_field, write_string_field, write_float_field,
}
use rust_mine.Nbt.Writer.Reader.{
  Field, write_field, write_fields, write_compound, cut, read_le, read_text, read_tag, read_value,
  put_first, read_named, read_entry, read_fields, read_compound, kept, kept_field, IsField,
  byte_field, float_field, int_field, long_field, string_field,
}

cut-append : (n : ℕ) (xs ys : List ℕ) → length xs ≡ n → cut n (xs ++ ys) ≡ some (xs, ys)
unfolding cut
cut-append n xs ys h =
    rw (sym h, take-append xs ys, drop-append xs ys, length-append xs ys) (ground arith)

read_le-append :
    (n v : ℕ) (rest : List ℕ) → v < 256 ^ n → read_le n (to_le_bytes n v ++ rest) ≡ some (v, rest)
unfolding read_le
read_le-append n v rest h =
    rw (cut-append n (to_le_bytes n v) rest (length-to_le_bytes n v), from-to_le_bytes n v h) refl

-- The bytes of a text.
unfoldable text : List ℕ → List ℕ
text s = to_le_bytes 2 (length s % 2 ^ 16) ++ kept s

to_bits-of_bits : (n : ℕ) → n < 2 ^ 16 → to_bits (2 ^ 15) (of_bits (2 ^ 15) n) ≡ n
to_bits-of_bits n h = ground arith

length-kept : (s : List ℕ) → length (kept s) ≡ length s % 2 ^ 16
length-kept s = omega (arith, length-take (length s % 2 ^ 16) s)

write_string-eq : (buf s : List ℕ) → write_string buf s ≡ buf ++ text s
unfolding write_string text
write_string-eq buf s =
    ap (λ n. (buf ++ to_le_bytes 2 (to_bits (2 ^ 15) (of_bits (2 ^ 15) n))) ++ take n s)
      (omega arith)
    ∙ ap (λ n. (buf ++ to_le_bytes 2 n) ++ kept s)
        (to_bits-of_bits (length s % 2 ^ 16) (omega arith))
    ∙ append_assoc buf (to_le_bytes 2 (length s % 2 ^ 16)) (kept s)

read_text-append : (s rest : List ℕ) → read_text (text s ++ rest) ≡ some (kept s, rest)
unfolding read_text text
read_text-append s rest =
    ap read_text (append_assoc (to_le_bytes 2 (length s % 2 ^ 16)) (kept s) rest)
    ∙ ap (λ r. r >>= λ p. cut p.0 p.1)
        (read_le-append 2 (length s % 2 ^ 16) (kept s ++ rest) (omega arith))
    ∙ cut-append (length s % 2 ^ 16) (kept s) rest (length-kept s)

-- The tag, and what stands behind the name.
abbrev tag_of : Field → ℕ
tag_of (byte_field name v) = 1
tag_of (float_field name v) = 5
tag_of (int_field name v) = 3
tag_of (long_field name v) = 4
tag_of (string_field name v) = 8

abbrev name_of : Field → List ℕ
name_of (byte_field name v) = name
name_of (float_field name v) = name
name_of (int_field name v) = name
name_of (long_field name v) = name
name_of (string_field name v) = name

abbrev value_of : Field → List ℕ
value_of (byte_field name v) = v ∷ []
value_of (float_field name v) = to_le_bytes 4 v
value_of (int_field name v) = to_le_bytes 4 (to_bits (2 ^ 31) v)
value_of (long_field name v) = to_le_bytes 8 (to_bits (2 ^ 63) v)
value_of (string_field name v) = text v

-- A tag, a name and a value behind what is written.
tagged :
    (buf : List ℕ) (tag : ℕ) (name value : List ℕ)
    → write_string (buf ++ tag ∷ []) name ++ value ≡ buf ++ tag ∷ (text name ++ value)
tagged buf tag name value =
    ap (λ b. b ++ value) (write_string-eq (buf ++ tag ∷ []) name)
    ∙ append_assoc (buf ++ tag ∷ []) (text name) value
    ∙ append_assoc buf (tag ∷ []) (text name ++ value)

write_field-eq :
    (buf : List ℕ) (f : Field)
    → write_field buf f ≡ buf ++ tag_of f ∷ (text (name_of f) ++ value_of f)
unfolding write_byte_field write_float_field write_int_field write_long_field write_string_field
write_field-eq buf (byte_field name v) = tagged buf 1 name (v ∷ [])
write_field-eq buf (float_field name v) = tagged buf 5 name (to_le_bytes 4 v)
write_field-eq buf (int_field name v) = tagged buf 3 name (to_le_bytes 4 (to_bits (2 ^ 31) v))
write_field-eq buf (long_field name v) = tagged buf 4 name (to_le_bytes 8 (to_bits (2 ^ 63) v))
write_field-eq buf (string_field name v) =
    write_string-eq (write_string (buf ++ 8 ∷ []) name) v ∙ tagged buf 8 name (text v)

abbrev id_of : Field → TagId
id_of (byte_field name v) = byte
id_of (float_field name v) = float
id_of (int_field name v) = int
id_of (long_field name v) = long
id_of (string_field name v) = string

read_value-written :
    (f : Field) (rest : List ℕ)
    → IsField f
    → read_value (id_of f) (kept (name_of f)) (value_of f ++ rest) ≡ some (kept_field f, rest)
read_value-written (byte_field name v) rest h =
    ap (λ n. read_le 1 (n ∷ rest) >>= λ p. some (byte_field (kept name) p.0, p.1)) (omega arith)
    ∙ ap (λ r. r >>= λ p. some (byte_field (kept name) p.0, p.1)) (read_le-append 1 v rest h)
read_value-written (float_field name v) rest h =
    ap (λ r. r >>= λ p. some (float_field (kept name) p.0, p.1))
      (read_le-append 4 v rest (omega arith))
read_value-written (int_field name v) rest h =
    ap (λ r. r >>= λ p. some (int_field (kept name) (of_bits (2 ^ 31) p.0), p.1))
      (read_le-append 4 (to_bits (2 ^ 31) v) rest (omega (arith, to_bits32-lt v)))
    ∙ ap (λ w. some (int_field (kept name) w, rest)) (of_bits-to_bits32 v h)
read_value-written (long_field name v) rest h =
    ap (λ r. r >>= λ p. some (long_field (kept name) (of_bits (2 ^ 63) p.0), p.1))
      (read_le-append 8 (to_bits (2 ^ 63) v) rest (omega (arith, to_bits64-lt v h)))
    ∙ ap (λ w. some (long_field (kept name) w, rest)) (of_bits-to_bits64 v h)
read_value-written (string_field name v) rest h =
    ap (λ r. r >>= λ p. some (string_field (kept name) p.0, p.1)) (read_text-append v rest)

read_tag-written : (f : Field) (bs : List ℕ) → read_tag (tag_of f ∷ bs) ≡ some (id_of f, bs)
unfolding from_u8
read_tag-written (byte_field name v) bs = refl
read_tag-written (float_field name v) bs = refl
read_tag-written (int_field name v) bs = refl
read_tag-written (long_field name v) bs = refl
read_tag-written (string_field name v) bs = refl

read_entry-id :
    (more : List ℕ → Option (List Field × List ℕ)) (f : Field) (bs : List ℕ)
    → read_entry more (id_of f) bs ≡ read_named more (id_of f) (read_text bs)
read_entry-id more (byte_field name v) bs = refl
read_entry-id more (float_field name v) bs = refl
read_entry-id more (int_field name v) bs = refl
read_entry-id more (long_field name v) bs = refl
read_entry-id more (string_field name v) bs = refl

-- A field is read as it was written, its texts cut, and then the others.
read_fields-field :
    (n : ℕ) (f : Field) (rest : List ℕ)
    → IsField f
    → read_fields (suc n) (tag_of f ∷ ((text (name_of f) ++ value_of f) ++ rest))
      ≡ put_first (read_fields n) (some (kept_field f, rest))
unfolding read_fields
read_fields-field n f rest h =
    ap (λ r. r >>= λ p. read_entry (read_fields n) p.0 p.1) (read_tag-written f _)
    ∙ read_entry-id (read_fields n) f _
    ∙ ap (λ bs. read_named (read_fields n) (id_of f) (read_text bs))
        (append_assoc (text (name_of f)) (value_of f) rest)
    ∙ ap (read_named (read_fields n) (id_of f)) (read_text-append (name_of f) (value_of f ++ rest))
    ∙ ap (put_first (read_fields n)) (read_value-written f rest h)

-- The bytes of the fields and the end.
abbrev body : List Field → List ℕ
body [] = 0 ∷ []
body (f ∷ fields) = tag_of f ∷ ((text (name_of f) ++ value_of f) ++ body fields)

write_fields-body :
    (buf : List ℕ) (fields : List Field) → write_end (write_fields buf fields) ≡ buf ++ body fields
unfolding write_end
write_fields-body buf [] = refl
write_fields-body buf (f ∷ fields) =
    write_fields-body (write_field buf f) fields
    ∙ ap (λ b. b ++ body fields) (write_field-eq buf f)
    ∙ append_assoc buf (tag_of f ∷ (text (name_of f) ++ value_of f)) (body fields)

read_fields-body :
    (rounds : ℕ) (fields : List Field) (rest : List ℕ)
    → length fields < rounds
    → All IsField fields
    → read_fields rounds (body fields ++ rest) ≡ some (map kept_field fields, rest)
unfolding read_fields from_u8
read_fields-body zero fields rest l h = absurd (omega arith)
read_fields-body (suc n) [] rest l h = refl
read_fields-body (suc n) (f ∷ fields) rest l h =
    ap (λ bs. read_fields (suc n) (tag_of f ∷ bs))
      (append_assoc (text (name_of f) ++ value_of f) (body fields) rest)
    ∙ read_fields-field n f (body fields ++ rest) h.0
    ∙ ap (λ r. r >>= λ q. some (kept_field f ∷ q.0, q.1))
        (read_fields-body n fields rest (omega arith) h.1)

-- A compound whose values fit their types, written as a header, the fields and the end, is read
-- back by a reader of little-endian NBT, whatever follows it; every text is cut to as many bytes
-- as its length modulo 2^16. More rounds than there are fields are enough.
pub read-write_compound :
    (rounds : ℕ) (name : List ℕ) (fields : List Field) (rest : List ℕ)
    → length fields < rounds
    → All IsField fields
    → read_compound rounds (write_compound name fields ++ rest) ≡ some (map kept_field fields, rest)
unfolding read_compound write_compound_header text from_u8
read-write_compound rounds name fields rest l h =
    ap (λ bs. read_compound rounds (bs ++ rest))
      (write_fields-body (write_compound_header [] name) fields)
    ∙ ap (λ r. r >>= λ p. read_fields rounds p.1) (read_text-append [] (body fields ++ rest))
    ∙ read_fields-body rounds fields rest l h
