-- ===== src/Raknet/Connection/Reassembly/InOrder.antt =====
-- Reassembly of pieces that come one after the other, crates/raknet/src/connection.rs.
use rust_mine.Base.{
  ℕ, suc, ◌+◌, ◌^◌, ◌<◌, min, ◌==◌, if◌then◌else◌, ◌≡◌, ap, ◌∙◌, List, [], length, get_or, none,
  some, arith, dec_lt,
}
use rust_mine.Base.Assoc.{insert, nat_eq}
use rust_mine.Raknet.Connection.{SplitPacket, insert_piece, new_split}
use rust_mine.Raknet.Connection.Reassembly.{
  Parts, present, present-none, present-insert, present-insert_above, IsPartial,
  new_split-IsPartial, after, after-IsPartial, insert_piece-eq, joined-eq,
}
use mathlib.Core.List.{flatten}

-- The first `i` indices have arrived and no other.
pub record IsPrefix (pieces : List (List ℕ)) (i : ℕ) (sp : SplitPacket) : Type 0 where
  pub partial : IsPartial pieces sp
  pub reached : (n : ℕ) → present n sp.parts ≡ min n i

pub new_split-IsPrefix :
    (pieces : List (List ℕ)) (now : ℕ) → IsPrefix pieces 0 (new_split (length pieces) now)
new_split-IsPrefix pieces now = record {
  partial = new_split-IsPartial pieces now;
  reached = λ n. omega (arith, present-none n);
}

present-next :
    (n i : ℕ) (p : List ℕ) (m : Parts)
    → ((k : ℕ) → present k m ≡ min k i)
    → present n (insert i p m) ≡ min n (i + 1)
present-next n i p m h = elim (dec_lt i n) [
  | yes below ↦ omega (arith, present-insert n i p m below, h n, h (suc i), h i)
  | no above ↦ omega (arith, present-insert_above n i p m (omega arith), h n)
]

-- The next piece in order: the message is whole exactly with the last one.
pub insert_piece-IsPrefix :
    (pieces : List (List ℕ)) (sp : SplitPacket) (i : ℕ)
    → IsPrefix pieces i sp
    → i < length pieces
    → length pieces < 2 ^ 32
    → let (sp', whole) = insert_piece sp i (get_or pieces i []) in
      IsPrefix pieces (i + 1) sp'
      × (whole ≡ (if suc i == length pieces then some (flatten pieces) else none))
unfolding after
insert_piece-IsPrefix pieces sp i prefix inside small =
    let kept = after-IsPartial pieces sp i prefix.partial inside in
    let reached = λ (n : ℕ). present-next n i (get_or pieces i []) sp.parts prefix.reached in
    let count : present (length pieces) (after pieces sp i prefix.partial inside).parts ≡ suc i =
      reached (length pieces) ∙ omega arith in
    rw (insert_piece-eq pieces sp i prefix.partial inside) (
      record { partial = kept; reached = reached },
      joined-eq pieces (after pieces sp i prefix.partial inside) kept small
          ∙ ap (λ (n : ℕ). if n == length pieces then some (flatten pieces) else none) count,
    )
