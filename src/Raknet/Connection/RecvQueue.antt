-- ===== src/Raknet/Connection/RecvQueue.antt =====
-- `RecvQueue` of crates/raknet/src/connection.rs against the set of the numbers pushed.
use rust_mine.Base.{
  ℕ, ◌+◌, ◌%◌, ◌^◌, ◌≤◌, ◌<◌, ◌==◌, ◌||◌, false, ◌≡◌, [], ◌∷◌, All, All-map, dec_lt, arith,
}
use rust_mine.Raknet.Connection.{RecvRanges, push, contains}

-- Every range runs upwards.
abbrev pub IsUpward : RecvRanges → Type 0
IsUpward = All (λ r. r.0 ≤ r.1)

-- No range ends at the last number of a u32 or beyond.
abbrev pub IsNarrow : RecvRanges → Type 0
IsNarrow = All (λ r. r.1 + 1 < 2 ^ 32)

-- Where the number is the one behind a range, it is so without a wrap.
abbrev pub Follows : ℕ → RecvRanges → Type 0
Follows seq = All (λ r. seq ≡ (r.1 + 1) % 2 ^ 32 → seq ≡ r.1 + 1)

pub narrow-Follows : (q : RecvRanges) (seq : ℕ) → IsNarrow q → Follows seq q
narrow-Follows q seq h = All-map (λ r n e. omega (arith, n, e)) q h

pub push-IsUpward : (q : RecvRanges) (seq : ℕ) → IsUpward q → Follows seq q → IsUpward (push q seq)
unfolding push
push-IsUpward [] seq h k = omega arith
push-IsUpward ((first, last) ∷ []) seq h k = ground (arith, k.0)
push-IsUpward (r ∷ next ∷ rs) seq h k = (h.0, push-IsUpward (next ∷ rs) seq h.1 k.1)

pub push-IsNarrow :
    (q : RecvRanges) (seq : ℕ) → IsNarrow q → seq + 1 < 2 ^ 32 → IsNarrow (push q seq)
unfolding push
push-IsNarrow [] seq h k = (k, tt)
push-IsNarrow ((first, last) ∷ []) seq h k = ground arith
push-IsNarrow (r ∷ next ∷ rs) seq h k = (h.0, push-IsNarrow (next ∷ rs) seq h.1 k)

pub contains-push_following :
    (q : RecvRanges) (seq n : ℕ)
    → IsUpward q
    → Follows seq q
    → contains (push q seq) n ≡ (n == seq || contains q n)
unfolding push contains
contains-push_following [] seq n h k = ground arith
contains-push_following ((first, last) ∷ []) seq n h k = ground (arith, k.0)
contains-push_following (r ∷ next ∷ rs) seq n h k =
    ground (arith, contains-push_following (next ∷ rs) seq n h.1 k.1)

-- A queue of upward ranges without the numbers from `seq` on.
pub unseen-Follows :
    (q : RecvRanges) (seq : ℕ)
    → IsUpward q
    → ((n : ℕ) → seq ≤ n → contains q n ≡ false)
    → Follows seq q
unfolding contains
unseen-Follows [] seq h k = tt
unseen-Follows ((first, last) ∷ q) seq h k = (
  λ e. elim (dec_lt last seq) [
    | yes above ↦ omega (arith, above, e)
    | no within ↦ absurd (ground (arith, k last (omega arith), h.0))
  ],
  unseen-Follows q seq h.1 (λ n later. ground (arith, k n later)),
)

-- A push adds the number, and nothing else, to the numbers that a queue contains, if its ranges
-- run upwards and end below the last u32.
pub contains-push :
    (q : RecvRanges) (seq n : ℕ)
    → IsUpward q
    → IsNarrow q
    → contains (push q seq) n ≡ (n == seq || contains q n)
contains-push q seq n h k = contains-push_following q seq n h (narrow-Follows q seq k)
