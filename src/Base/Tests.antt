-- ===== src/Base/Tests.antt =====
-- Boolean tests on the native numbers, the conditional, and arrays as functions.
use Prim.Native.Nat.{ℕ, zero, suc, ◌+◌, ◌≤◌, ◌<◌, compare, Ordering}
use mathlib.Core.Path.{◌≡◌, refl}
use mathlib.Core.Logic.{◌≢◌, ◌↔◌, ◌⊎◌, inl, inr}
use mathlib.Core.Bool.{Bool, true, false}
use mathlib.Core.Option.{Option, none, some}
use native.Mathlib.Omega.{arith}

abbrev pub ltb : ℕ → ℕ → Bool
ltb a b = elim (compare a b) [ Ordering.lt ↦ true | _ ↦ false ]

abbrev pub leb : ℕ → ℕ → Bool
leb a b = elim (compare a b) [ Ordering.gt ↦ false | _ ↦ true ]

infix 50 ◌==◌
abbrev pub ◌==◌ : ℕ → ℕ → Bool
a == b = elim (compare a b) [ Ordering.eq ↦ true | _ ↦ false ]

infix 1 if◌then◌else◌
abbrev pub if◌then◌else◌ {ℓ} : {A : Type ℓ} → Bool → A → A → A
if true then x else y = x
if false then x else y = y

pub ltb→lt : (a b : ℕ) → ltb a b ≡ true → a < b
ltb→lt a b h = ground arith

pub leb→le : (a b : ℕ) → leb a b ≡ true → a ≤ b
leb→le a b h = ground arith

pub leb→gt : (a b : ℕ) → leb a b ≡ false → b < a
leb→gt a b h = ground arith

pub ==_iff : (a b : ℕ) → ((a == b) ≡ true) ↔ (a ≡ b)
==_iff a b = ground arith

-- To split on a computed value and keep the equation.
pub Bool-cases : (b : Bool) → (b ≡ true) ⊎ (b ≡ false)
Bool-cases true = inl refl
Bool-cases false = inr refl

pub Option-cases {ℓ} : {A : Type ℓ} (o : Option A) → (o ≡ none) ⊎ ((a : A) × (o ≡ some a))
Option-cases none = inl refl
Option-cases (some a) = inr (a, refl)

-- A Boolean as a number, to be added up.
abbrev pub bit : Bool → ℕ
bit true = 1
bit false = 0

-- An assignment `a[i] = x` to an array that is read as a function of its index.
abbrev pub update {ℓ} : {A : Type ℓ} → (ℕ → A) → ℕ → A → ℕ → A
update a i x k = if i == k then x else a k

module _ {ℓ} {A : Type ℓ} where
  -- How many of the first `n` entries of an array pass the test `p`.
  pub count : (A → Bool) → (ℕ → A) → ℕ → ℕ
  count p a zero = 0
  count p a (suc n) = count p a n + bit (p (a n))

  pub count-suc :
      (p : A → Bool) (a : ℕ → A) (n : ℕ) → count p a (suc n) ≡ count p a n + bit (p (a n))
  unfolding count
  count-suc p a n = refl

  pub count_bound : (p : A → Bool) (a : ℕ → A) (n : ℕ) → count p a n ≤ n
  unfolding count
  count_bound p a zero = omega arith
  count_bound p a (suc n) = ground (arith, count_bound p a n)

  pub count-update_ge :
      (p : A → Bool) (a : ℕ → A) (i : ℕ) (x : A) (n : ℕ)
      → n ≤ i
      → count p (update a i x) n ≡ count p a n
  unfolding count
  count-update_ge p a i x zero h = refl
  count-update_ge p a i x (suc n) h = ground (arith, count-update_ge p a i x n)

  -- An assignment trades the old entry for the new one.
  pub count-update :
      (p : A → Bool) (a : ℕ → A) (i : ℕ) (x : A) (n : ℕ)
      → i < n
      → count p (update a i x) n + bit (p (a i)) ≡ count p a n + bit (p x)
  unfolding count
  count-update p a i x zero h = elim h [ ]
  count-update p a i x (suc n) h = ground (arith, count-update p a i x n, count-update_ge p a i x n)

  -- Moving the entry `m` to `i`, and `x` to `m`, has the same outcome for counts as `x` at `i`.
  pub count-move :
      (p : A → Bool) (x : A) (a : ℕ → A) (i m n : ℕ)
      → i < n
      → m < n
      → m ≢ i
      → count p (update (update a i (a m)) m x) n ≡ count p (update a i x) n
  count-move p x a i m n hi hm ne = ground (
    arith,
    count-update p (update a i (a m)) m x n,
    count-update p a i (a m) n,
    count-update p a i x n,
  )

  -- No entry passes the test exactly if the count is 0.
  pub none_of_count :
      (p : A → Bool) (a : ℕ → A) (n i : ℕ) → count p a n ≡ 0 → i < n → p (a i) ≡ false
  unfolding count
  none_of_count p a zero i e h = elim h [ ]
  none_of_count p a (suc n) i e h = ground (arith, none_of_count p a n i)

  pub count_of_none :
      (p : A → Bool) (a : ℕ → A) (n : ℕ) → ((i : ℕ) → i < n → p (a i) ≡ false) → count p a n ≡ 0
  unfolding count
  count_of_none p a zero h = refl
  count_of_none p a (suc n) h = ground (arith, h n, count_of_none p a n λ i q. h i (omega arith))

  -- Arrays that agree on the first `n` entries count alike.
  pub count_congr :
      (p : A → Bool) (a b : ℕ → A) (n : ℕ)
      → ((i : ℕ) → i < n → a i ≡ b i)
      → count p a n ≡ count p b n
  unfolding count
  count_congr p a b zero h = refl
  count_congr p a b (suc n) h = ground (arith, h n, count_congr p a b n λ i q. h i (omega arith))

  -- Where no entry from `k` on passes the test, at most `k` do.
  pub count_le :
      (p : A → Bool) (a : ℕ → A) (k n : ℕ)
      → ((i : ℕ) → k ≤ i → i < n → p (a i) ≡ false)
      → count p a n ≤ k
  unfolding count
  count_le p a k zero h = omega arith
  count_le p a k (suc n) h = elim (Bool-cases (ltb n k)) [
    | inl before ↦ ground (arith, count_bound p a n)
    | inr after ↦ ground (arith, h n, count_le p a k n λ i l q. h i l (omega arith))
  ]
