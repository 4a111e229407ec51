-- ===== src/Heap/Order.antt =====
-- The heap order, and the interface between the comparison and the keys that it compares.
use logstats.Base.{
  ℕ, suc, ◌+◌, zero, ◌*◌, ◌/◌, ◌≤◌, ◌<◌, ◌≡◌, ◌≢◌, arith, ℤ, positive, negative, ltb, none,
}
use logstats.Heap.{InsertFunc, notify}

-- Every entry of the first `n` has a key no greater than those of its two children.
abbrev pub Ordered : {E : Type 0} → (E → ℕ) → ℕ → (ℕ → E) → Type 0
Ordered key n a = (p c : ℕ) → 2 * p + 1 ≤ c → c ≤ 2 * p + 2 → c < n → key (a p) ≤ key (a c)

-- In the memory `s` the comparison is that of the keys.
pub record Compares {E S : Type 0} (cmp : S → E → E → ℤ) (key : E → ℕ) (s : S) : Type 0 where
  pub above : (a b : E) → positive (cmp s a b) ≡ ltb (key b) (key a)
  pub below : (a b : E) → negative (cmp s a b) ≡ ltb (key a) (key b)

-- The insert function does not touch what the comparison reads.
abbrev pub Keeps : {E S : Type 0} → (S → E → E → ℤ) → (E → ℕ) → InsertFunc E S → Type 0
Keeps {E} {S} cmp key func =
    (e : E) (idx : ℕ) (s : S) → Compares cmp key s → Compares cmp key (notify func e idx s)

pub none-Keeps : {E S : Type 0} (cmp : S → E → E → ℤ) (key : E → ℕ) → Keeps cmp key none
unfolding notify
none-Keeps cmp key e idx s c = c

-- The order of an array with a free position `i`, for which `x` is not too small.
pub record SiftInv {E : Type 0} (key : E → ℕ) (x : E) (n i : ℕ) (a : ℕ → E) : Type 0 where
  pub inside : i < n
  pub edges :
      (p c : ℕ) → 2 * p + 1 ≤ c → c ≤ 2 * p + 2 → c < n → p ≢ i → c ≢ i → key (a p) ≤ key (a c)
  pub bridged :
      (p c : ℕ)
      → 2 * p + 1 ≤ i
      → i ≤ 2 * p + 2
      → 2 * i + 1 ≤ c
      → c ≤ 2 * i + 2
      → c < n
      → key (a p) ≤ key (a c)
  pub above : (p : ℕ) → 2 * p + 1 ≤ i → i ≤ 2 * p + 2 → key (a p) ≤ key x

module _ {E : Type 0} (key : E → ℕ) (a : ℕ → E) where
  root_least_below : (k n i : ℕ) → Ordered key n a → i < k → i < n → key (a 0) ≤ key (a i)
  root_least_below zero n i o f h = elim f [ ]
  root_least_below (suc k) n zero o f h = omega arith
  root_least_below (suc k) n (suc i) o f h = omega (
    arith,
    o (i / 2) (suc i) (omega arith) (omega arith) h,
    root_least_below k n (i / 2) o (omega arith) (omega arith),
  )

  -- The root of an ordered heap has the least key.
  pub root_least : (n i : ℕ) → Ordered key n a → i < n → key (a 0) ≤ key (a i)
  root_least n i o h = root_least_below (suc i) n i o (omega arith) h
