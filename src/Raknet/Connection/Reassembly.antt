-- ===== src/Raknet/Connection/Reassembly.antt =====
-- Reassembly of split packets, crates/raknet/src/connection.rs: pieces may come in any order and
-- more than once.
pub mod InOrder
use rust_mine.Base.{
  ℕ, zero, suc, ◌+◌, ◌%◌, ◌^◌, ◌≤◌, ◌<◌, min, leb-false, ◌==◌, if◌then◌else◌, ◌≡◌, refl, sym, ap,
  ◌∙◌, List, [], ◌∷◌, length, get_or, Option, none, some, Option-cases, inl, inr, arith, dec_lt,
  Bool-cases, ==_iff,
}
use rust_mine.Base.Assoc.{
  Assoc, lookup, insert, lookup-insert, length-insert_old, length-insert_new, nat_eq,
}
use rust_mine.Raknet.Connection.{SplitPacket, insert_piece, join_parts, new_split}
use mathlib.Core.List.{flatten}
use native.Mathlib.Nat.{mod-eq_of_lt}

abbrev Parts : Type 0
Parts = Assoc ℕ (List ℕ)

abbrev has {ℓ} : {A : Type ℓ} → Option A → ℕ
has none = 0
has (some a) = 1

-- How many of the indices below `n` have arrived.
abbrev pub present : ℕ → Parts → ℕ
present zero m = 0
present (suc n) m = present n m + has (lookup n m)

present-insert_above :
    (n i : ℕ) (p : List ℕ) (m : Parts) → n ≤ i → present n (insert i p m) ≡ present n m
present-insert_above zero i p m h = refl
present-insert_above (suc n) i p m h =
    ground (arith, lookup-insert i n p m, present-insert_above n i p m)

present-insert :
    (n i : ℕ) (p : List ℕ) (m : Parts)
    → i < n
    → present n (insert i p m) + has (lookup i m) ≡ present n m + 1
present-insert zero i p m h = absurd (omega arith)
present-insert (suc n) i p m h =
    ground (arith, lookup-insert i n p m, present-insert n i p m, present-insert_above n i p m)

present-le : (n : ℕ) (m : Parts) → present n m ≤ n
present-le zero m = omega arith
present-le (suc n) m = ground (arith, present-le n m)

present_full :
    (n i : ℕ) (m : Parts) → present n m ≡ n → i < n → (p : List ℕ) × (lookup i m ≡ some p)
present_full zero i m e h = absurd (omega arith)
present_full (suc n) i m e h = elim (Option-cases (lookup n m)) [
  | inl missing ↦ absurd (omega (arith, present-le n m, ap has missing))
  | inr (p, found) ↦ elim (dec_lt i n) [
    | yes below ↦ present_full n i m (omega (arith, ap has found)) below
    | no above ↦ let last : i ≡ n = omega arith in (p, ap (λ (k : ℕ). lookup k m) last ∙ found)
  ]
]

-- The parts that have arrived are pieces of the one message, each under its own index.
pub record IsPartial (pieces : List (List ℕ)) (sp : SplitPacket) : Type 0 where
  pub counted : sp.split_count ≡ length pieces
  pub agrees :
      (i : ℕ) (p : List ℕ)
      → lookup i sp.parts ≡ some p
      → (i < length pieces) × (p ≡ get_or pieces i [])
  pub tallied : length sp.parts ≡ present (length pieces) sp.parts

present-none : (n : ℕ) → present n [] ≡ 0
present-none zero = refl
present-none (suc n) = omega (arith, present-none n)

pub new_split-IsPartial :
    (pieces : List (List ℕ)) (now : ℕ) → IsPartial pieces (new_split (length pieces) now)
new_split-IsPartial pieces now = record {
  counted = refl;
  agrees = λ i p e. absurd (cc);
  tallied = sym (present-none (length pieces));
}

join_parts-flatten :
    (xs : List (List ℕ)) (i : ℕ) (parts : Parts)
    → ((j : ℕ) → j < length xs → lookup (i + j) parts ≡ some (get_or xs j []))
    → join_parts (length xs) i parts ≡ some (flatten xs)
unfolding join_parts flatten
join_parts-flatten [] i parts h = refl
join_parts-flatten (x ∷ xs) i parts h =
    let first : lookup i parts ≡ some x =
      ap (λ (k : ℕ). lookup k parts) (omega arith) ∙ h 0 (omega arith) in
    ground (arith, first, join_parts-flatten xs (i + 1) parts shifted)
  where
    shifted : (j : ℕ) → j < length xs → lookup (i + 1 + j) parts ≡ some (get_or xs j [])
    shifted j l = ap (λ (k : ℕ). lookup k parts) (omega arith) ∙ h (suc j) (omega arith)

module _ (pieces : List (List ℕ)) (sp : SplitPacket) (i : ℕ) (partial : IsPartial pieces sp)
    (inside : i < length pieces) where
  after : SplitPacket
  after = record sp { parts = insert i (get_or pieces i []) sp.parts }

  agrees-insert :
      (j : ℕ) (p : List ℕ)
      → lookup j (insert i (get_or pieces i []) sp.parts) ≡ some p
      → (j < length pieces) × (p ≡ get_or pieces j [])
  agrees-insert j p e = elim (Bool-cases (i == j)) [
    | inl same ↦
        let e' = sym (lookup-insert i j (get_or pieces i []) sp.parts) ∙ e in
        let ij : i ≡ j = (==_iff i j).0 same in ground arith
    | inr other ↦
        partial.agrees j p (ground (arith, lookup-insert i j (get_or pieces i []) sp.parts))
  ]

  tallied-insert :
      length (insert i (get_or pieces i []) sp.parts)
      ≡ present (length pieces) (insert i (get_or pieces i []) sp.parts)
  tallied-insert = elim (Option-cases (lookup i sp.parts)) [
    | inl e ↦ omega (
      arith,
      partial.tallied,
      ap has e,
      length-insert_new i (get_or pieces i []) sp.parts e,
      present-insert (length pieces) i (get_or pieces i []) sp.parts inside,
    )
    | inr (old, e) ↦ omega (
      arith,
      partial.tallied,
      ap has e,
      length-insert_old i (get_or pieces i []) old sp.parts e,
      present-insert (length pieces) i (get_or pieces i []) sp.parts inside,
    )
  ]

  after-IsPartial : IsPartial pieces after
  unfolding after
  after-IsPartial = record {
    counted = partial.counted;
    agrees = agrees-insert;
    tallied = tallied-insert;
  }

  insert_piece-eq : insert_piece sp i (get_or pieces i []) ≡ (
    after,
    if length after.parts % 2 ^ 32 == sp.split_count
        then join_parts sp.split_count 0 after.parts
        else none,
  )
  unfolding insert_piece after
  insert_piece-eq = rw (leb-false sp.split_count i (omega (arith, partial.counted)))

-- All parts are there: they are joined in the order of their indices.
whole-join :
    (pieces : List (List ℕ)) (sp : SplitPacket)
    → IsPartial pieces sp
    → present (length pieces) sp.parts ≡ length pieces
    → join_parts (length pieces) 0 sp.parts ≡ some (flatten pieces)
whole-join pieces sp partial full = join_parts-flatten pieces 0 sp.parts λ j l.
    let (p, e) = present_full (length pieces) j sp.parts full l in
    ap (λ (k : ℕ). lookup k sp.parts) (omega arith) ∙ e ∙ ap some (partial.agrees j p e).1

-- What `insert_piece` hands back, for parts that are true to the message.
joined-eq :
    (pieces : List (List ℕ)) (sp : SplitPacket)
    → IsPartial pieces sp
    → length pieces < 2 ^ 32
    → (if length sp.parts % 2 ^ 32 == sp.split_count
        then join_parts sp.split_count 0 sp.parts
        else none)
      ≡ (if present (length pieces) sp.parts == length pieces then some (flatten pieces) else none)
joined-eq pieces sp partial small =
    rw
      (
        partial.counted,
        partial.tallied,
        mod-eq_of_lt {n = present (length pieces) sp.parts} {m = 2 ^ 32}
            (omega (arith, present-le (length pieces) sp.parts)),
      )
      elim (Bool-cases (present (length pieces) sp.parts == length pieces)) [
        | inl e ↦ rw e (whole-join pieces sp partial ((==_iff _ _).0 e))
        | inr e ↦ rw e refl
      ]

-- Any piece of a message of fewer than 2^32 pieces, in any order and also repeated, keeps a
-- partial packet true to the message; the whole comes out exactly when every index has arrived.
pub insert_piece-IsPartial :
    (pieces : List (List ℕ)) (sp : SplitPacket) (i : ℕ)
    → IsPartial pieces sp
    → i < length pieces
    → length pieces < 2 ^ 32
    → let (sp', whole) = insert_piece sp i (get_or pieces i []) in
      IsPartial pieces sp'
      × (whole ≡ (
          if present (length pieces) sp'.parts == length pieces
          then some (flatten pieces)
          else none))
unfolding after
insert_piece-IsPartial pieces sp i partial inside small =
    let kept = after-IsPartial pieces sp i partial inside in
    rw (insert_piece-eq pieces sp i partial inside)
      (kept, joined-eq pieces (after pieces sp i partial inside) kept small)
