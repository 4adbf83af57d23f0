-- ===== src/Base/Assoc.antt =====
-- `HashMap` as an association list. The order of the entries stands for the map's own order of
-- iteration, which the source leaves open. Keys are compared by an instance of `Eq`.
use mathlib.Core.Path.{◌≡◌, refl}
use mathlib.Core.Logic.{◌↔◌}
use mathlib.Core.Bool.{Bool, true, false, ◌&&◌}
use mathlib.Core.Option
use mathlib.Core.Option.{Option, none, some}
use mathlib.Core.List.{List, [], ◌∷◌}
use Prim.Native.Nat.{ℕ, ◌+◌, ◌≤◌}
use native.Mathlib.Omega.{arith}
use rust_mine.Base.Tests.{if◌then◌else◌, ◌==◌, ==_iff}
use rust_mine.Base.Lists.{length, All}
use rust_mine.Base.Int.{ℤ, eqz, eqz_iff}

pub record KeyEq {ℓ} (A : Type ℓ) : Type ℓ where
  pub same : A → A → Bool
  pub same_iff : (a b : A) → (same a b ≡ true) ↔ (a ≡ b)

instance abbrev pub nat_eq : KeyEq ℕ
nat_eq = record { same = ◌==◌; same_iff = ==_iff }

instance abbrev pub int_eq : KeyEq ℤ
int_eq = record { same = eqz; same_iff = eqz_iff }

pub pair_iff {ℓ κ} :
    {A : Type ℓ} {B : Type κ} ⦃e : KeyEq A⦄ ⦃f : KeyEq B⦄ (p q : A × B)
    → ((e.same p.0 q.0 && f.same p.1 q.1) ≡ true) ↔ (p ≡ q)
pair_iff ⦃e⦄ ⦃f⦄ (a, b) (c, d) = (
  λ h. ground (arith, e.same_iff a c, f.same_iff b d),
  λ h. ground (arith, e.same_iff a c, f.same_iff b d),
)

instance abbrev pub pair_eq {ℓ κ} :
    {A : Type ℓ} {B : Type κ} ⦃e : KeyEq A⦄ ⦃f : KeyEq B⦄ → KeyEq (A × B)
pair_eq ⦃e⦄ ⦃f⦄ = record { same = λ p q. e.same p.0 q.0 && f.same p.1 q.1; same_iff = pair_iff }

pub same_refl {ℓ} : {A : Type ℓ} ⦃e : KeyEq A⦄ (a : A) → e.same a a ≡ true
same_refl ⦃e⦄ a = (e.same_iff a a).1 refl

abbrev pub Assoc {ℓ κ} : Type ℓ → Type κ → Type (ℓ ⊔ κ)
Assoc K V = List (K × V)

module _ {ℓ κ} {K : Type ℓ} {V : Type κ} ⦃e : KeyEq K⦄ where
  -- `get`, `insert`, `remove` (without its result) and `get_mut` with an update.
  abbrev pub lookup : K → Assoc K V → Option V
  lookup k [] = none
  lookup k ((j, v) ∷ m) = if e.same j k then some v else lookup k m

  abbrev pub insert : K → V → Assoc K V → Assoc K V
  insert k v [] = (k, v) ∷ []
  insert k v ((j, w) ∷ m) = if e.same j k then (k, v) ∷ m else (j, w) ∷ insert k v m

  abbrev pub remove : K → Assoc K V → Assoc K V
  remove k [] = []
  remove k ((j, w) ∷ m) = if e.same j k then remove k m else (j, w) ∷ remove k m

  abbrev pub adjust : K → (V → V) → Assoc K V → Assoc K V
  adjust k f [] = []
  adjust k f ((j, w) ∷ m) = if e.same j k then (j, f w) ∷ m else (j, w) ∷ adjust k f m

  pub lookup-insert :
      (k j : K) (v : V) (m : Assoc K V)
      → lookup j (insert k v m) ≡ (if e.same k j then some v else lookup j m)
  lookup-insert k j v [] = refl
  lookup-insert k j v ((i, w) ∷ m) =
      ground (arith, e.same_iff k j, e.same_iff i k, e.same_iff i j, lookup-insert k j v m)

  pub lookup-remove :
      (k j : K) (m : Assoc K V) → lookup j (remove k m) ≡ (if e.same k j then none else lookup j m)
  lookup-remove k j [] = ground arith
  lookup-remove k j ((i, w) ∷ m) =
      ground (arith, e.same_iff k j, e.same_iff i k, e.same_iff i j, lookup-remove k j m)

  pub lookup-adjust :
      (k j : K) (f : V → V) (m : Assoc K V)
      → lookup j (adjust k f m) ≡ (if e.same k j then Option.map f (lookup j m) else lookup j m)
  lookup-adjust k j f [] = ground arith
  lookup-adjust k j f ((i, w) ∷ m) =
      ground (arith, e.same_iff k j, e.same_iff i k, e.same_iff i j, lookup-adjust k j f m)

  -- What is put in for a value that is found is an update of it.
  pub insert-adjust :
      (k : K) (f : V → V) (v : V) (m : Assoc K V)
      → lookup k m ≡ some v
      → insert k (f v) m ≡ adjust k f m
  insert-adjust k f v [] found = ground (arith, found)
  insert-adjust k f v ((j, w) ∷ m) found =
      ground (arith, found, e.same_iff j k, insert-adjust k f v m)

  pub length-insert : (k : K) (v : V) (m : Assoc K V) → length (insert k v m) ≤ length m + 1
  length-insert k v [] = omega arith
  length-insert k v ((j, w) ∷ m) = ground (arith, length-insert k v m)

  -- `insert` of a key that is there already keeps the size.
  pub length-insert_old :
      (k : K) (v w : V) (m : Assoc K V) → lookup k m ≡ some w → length (insert k v m) ≡ length m
  length-insert_old k v w [] h = absurd (cc)
  length-insert_old k v w ((j, u) ∷ m) h = ground (arith, length-insert_old k v w m)

  pub length-insert_new :
      (k : K) (v : V) (m : Assoc K V) → lookup k m ≡ none → length (insert k v m) ≡ length m + 1
  length-insert_new k v [] h = omega arith
  length-insert_new k v ((j, u) ∷ m) h = ground (arith, length-insert_new k v m)

pub either {ℓ κ} :
    {A : Type ℓ} (P : A → Type κ) (b : Bool) (x y : A) → P x → P y → P (if b then x else y)
either P true x y h k = h
either P false x y h k = k

-- A value, if there is one, is as said.
abbrev pub OnSome {ℓ κ} : {V : Type ℓ} → (V → Type κ) → Option V → Type κ
OnSome P none = Unit
OnSome P (some v) = P v

module _ {ℓ κ μ} {K : Type ℓ} {V : Type κ} ⦃e : KeyEq K⦄ (P : V → Type μ) where
  -- What holds of all values holds of one that is found, and goes on with one that is put in.
  pub lookup-OnSome : (k : K) (m : Assoc K V) → All (λ entry. P entry.1) m → OnSome P (lookup k m)
  lookup-OnSome k [] h = tt
  lookup-OnSome k ((j, w) ∷ m) h =
      either (OnSome P) (e.same j k) (some w) (lookup k m) h.0 (lookup-OnSome k m h.1)

  pub insert-All :
      (k : K) (v : V) (m : Assoc K V)
      → P v
      → All (λ entry. P entry.1) m
      → All (λ entry. P entry.1) (insert k v m)
  insert-All k v [] p h = (p, tt)
  insert-All k v ((j, w) ∷ m) p h =
      either (All (λ entry. P entry.1)) (e.same j k) ((k, v) ∷ m) ((j, w) ∷ insert k v m) (p, h.1)
        (h.0, insert-All k v m p h.1)
