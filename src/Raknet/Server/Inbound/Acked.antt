-- ===== src/Raknet/Server/Inbound/Acked.antt =====
-- The ACK loop of crates/raknet/src/server.rs against one filter by the ranges.
use rust_mine.Base.{
  ℕ, zero, suc, ◌+◌, ltb, leb, ◌==◌, not, Bool, ◌&&◌, ◌≡◌, refl, ap, ◌∙◌, List, [], ◌∷◌, any,
  retain, arith,
}
use rust_mine.Raknet.Packet.{SequenceRange}
use rust_mine.Raknet.Connection.{PendingFrame}
use rust_mine.Raknet.Server.Inbound.{ack_numbers, ack_ranges, range_size}

-- A range of an ACK or a NACK names this number.
abbrev pub names : ℕ → SequenceRange → Bool
names s r = leb r.start s && leb s r.end

retain-retain :
    (p q : PendingFrame → Bool) (xs : List PendingFrame)
    → retain p (retain q xs) ≡ retain (λ f. q f && p f) xs
retain-retain p q [] = refl
retain-retain p q (x ∷ xs) = ground (arith, retain-retain p q xs)

retain-ext :
    (p q : PendingFrame → Bool) (xs : List PendingFrame)
    → ((f : PendingFrame) → p f ≡ q f)
    → retain p xs ≡ retain q xs
retain-ext p q [] h = refl
retain-ext p q (x ∷ xs) h = ground (arith, h x, retain-ext p q xs h)

-- The number of this pending frame is not among the `rounds` from `s`, or in no range.
abbrev outside : ℕ → ℕ → PendingFrame → Bool
outside s rounds f = not (leb s f.sequence_number && ltb f.sequence_number (s + rounds))

abbrev pub unnamed : List SequenceRange → PendingFrame → Bool
unnamed rs f = not (any (names f.sequence_number) rs)

abbrev other : ℕ → PendingFrame → Bool
other s f = not (f.sequence_number == s)

ack_numbers-retain :
    (rounds s : ℕ) (pending : List PendingFrame)
    → ack_numbers rounds s pending ≡ retain (outside s rounds) pending
unfolding ack_numbers
ack_numbers-retain zero s [] = refl
ack_numbers-retain zero s (p ∷ ps) = ground (arith, ack_numbers-retain zero s ps)
ack_numbers-retain (suc rounds) s pending =
    ack_numbers-retain rounds (s + 1) (retain (other s) pending)
    ∙ retain-retain (outside (s + 1) rounds) (other s) pending
    ∙ retain-ext (λ f. other s f && outside (s + 1) rounds f) (outside s (suc rounds)) pending
        (λ f. ground arith)

-- Going through the ranges of an ACK number by number keeps exactly the pending frames that no
-- range names, in their order.
pub ack_ranges-retain :
    (rs : List SequenceRange) (pending : List PendingFrame)
    → ack_ranges rs pending ≡ retain (unnamed rs) pending
unfolding ack_ranges
ack_ranges-retain [] [] = refl
ack_ranges-retain [] (p ∷ ps) = ap (◌∷◌ p) (ack_ranges-retain [] ps)
ack_ranges-retain (r ∷ rs) pending =
    ack_ranges-retain rs (ack_numbers (range_size r) r.start pending)
    ∙ ap (retain (unnamed rs)) (ack_numbers-retain (range_size r) r.start pending)
    ∙ retain-retain (unnamed rs) (outside r.start (range_size r)) pending
    ∙ retain-ext (λ f. outside r.start (range_size r) f && unnamed rs f) (unnamed (r ∷ rs)) pending
        (λ f. ground arith)
