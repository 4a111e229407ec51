-- ===== src/Addr/Prefix.antt =====
-- The masks of IPv4 networks in src/zip_addr.c: bit_and with a mask of n high bits keeps the prefix.
use Prim.Native.Nat.{min, digits, bit_and, bit_and-bitwise}
use native.Mathlib.Nat.{two-pow-succ}
use logstats.Base.{
  ℕ, zero, suc, ◌+◌, ◌-◌, ◌*◌, ◌/◌, ◌%◌, ◌^◌, ◌<◌, ◌≤◌, ◌≡◌, refl, sym, ap, ◌∙◌, false, some, ltb,
  ◌==◌, arith,
}
use logstats.Addr.{same_network_v4}

-- `v` with `k` binary zeros behind it.
shifted : ℕ → ℕ → ℕ
shifted zero v = v
shifted (suc k) v = 2 * shifted k v

-- Any count of digits that covers the first number gives the same digits.
digits_enough :
    (n l a b : ℕ) → a ≤ n → a ≤ l → digits (λ d. zero) min n a b ≡ digits (λ d. zero) min l a b
digits_enough zero zero a b h k = refl
digits_enough zero (suc l) zero b h k = refl
digits_enough zero (suc l) (suc a) b h k = absurd (omega (arith, h))
digits_enough (suc n) zero zero b h k = refl
digits_enough (suc n) zero (suc a) b h k = absurd (omega (arith, k))
digits_enough (suc n) (suc l) zero b h k = refl
digits_enough (suc n) (suc l) (suc a) b h k =
    ap (λ d. d * 2 + min (suc a % 2) (b % 2))
      (digits_enough n l (suc a / 2) (b / 2) (omega arith) (omega arith))

both_halves : (a b : ℕ) → bit_and a b ≡ bit_and (a / 2) (b / 2) * 2 + min (a % 2) (b % 2)
both_halves zero b = omega (arith, bit_and-bitwise 0 b, bit_and-bitwise 0 (b / 2))
both_halves (suc a) b =
    bit_and-bitwise (suc a) b
    ∙ ap (λ d. d * 2 + min (suc a % 2) (b % 2))
        (digits_enough a (suc a / 2) (suc a / 2) (b / 2) (omega arith) (omega arith)
          ∙ sym (bit_and-bitwise (suc a / 2) (b / 2)))

and_shifted :
    (k q m r : ℕ)
    → r < shifted k 1
    → bit_and (shifted k q + r) (shifted k m) ≡ shifted k (bit_and q m)
unfolding shifted
and_shifted zero q m r h = ap (λ a. bit_and a m) (omega arith)
and_shifted (suc k) q m r h =
    let low : (2 * shifted k q + r) / 2 ≡ shifted k q + r / 2 = omega arith in
    let high : 2 * shifted k m / 2 ≡ shifted k m = omega arith in
    omega (
      arith,
      both_halves (2 * shifted k q + r) (2 * shifted k m),
      ap (λ a. bit_and a (2 * shifted k m / 2)) low,
      ap (bit_and (shifted k q + r / 2)) high,
      and_shifted k q m (r / 2) (omega arith),
    )

shifted_some : (n : ℕ) → 0 < shifted n 1
unfolding shifted
shifted_some zero = omega arith
shifted_some (suc n) = omega (arith, shifted_some n)

and_ones : (n q : ℕ) → q < shifted n 1 → bit_and q (shifted n 1 - 1) ≡ q
unfolding shifted
and_ones zero zero h = bit_and-bitwise 0 0
and_ones zero (suc q) h = absurd (omega arith)
and_ones (suc n) q h =
    let ones : (2 * shifted n 1 - 1) / 2 ≡ shifted n 1 - 1 = omega (arith, shifted_some n) in
    omega (
      arith,
      both_halves q (2 * shifted n 1 - 1),
      ap (bit_and (q / 2)) ones,
      and_ones n (q / 2) (omega arith),
      shifted_some n,
    )

pow_shifted : (n : ℕ) → 2 ^ n ≡ shifted n 1
unfolding shifted
pow_shifted zero = refl
pow_shifted (suc n) = omega (arith, two-pow-succ n, pow_shifted n)

mul_shifted : (k q : ℕ) → q * shifted k 1 ≡ shifted k q
unfolding shifted
mul_shifted zero q = omega arith
mul_shifted (suc k) q = grind (arith, mul_shifted k q)

shifted_mask : (n k : ℕ) → 2 ^ (n + k) - 2 ^ k ≡ shifted k (shifted n 1 - 1)
unfolding shifted
shifted_mask n zero =
    let e : 2 ^ (n + 0) ≡ 2 ^ n = ap (λ e. 2 ^ e) (omega arith) in omega (arith, e, pow_shifted n)
shifted_mask n (suc k) =
    let e : 2 ^ (n + suc k) ≡ 2 ^ suc (n + k) = ap (λ e. 2 ^ e) (omega arith) in
    omega (arith, e, two-pow-succ (n + k), two-pow-succ k, shifted_mask n k)

same_shifted : (k a b : ℕ) → (shifted k a == shifted k b) ≡ (a == b)
unfolding shifted
same_shifted zero a b = refl
same_shifted (suc k) a b = ground (arith, same_shifted k a b)

module _ (n k : ℕ) (whole : n + k ≡ 32) where
  masked :
      (q r : ℕ) → q < 2 ^ n → r < 2 ^ k → bit_and (q * 2 ^ k + r) (2 ^ 32 - 2 ^ k) ≡ shifted k q
  masked q r hq hr =
      let mask : 2 ^ 32 - 2 ^ k ≡ shifted k (shifted n 1 - 1) =
        ap (λ e. 2 ^ e - 2 ^ k) (sym whole) ∙ shifted_mask n k in
      let ip : q * 2 ^ k + r ≡ shifted k q + r =
        ap (λ p. q * p + r) (pow_shifted k) ∙ ap (λ s. s + r) (mul_shifted k q) in
      ap (λ a. bit_and a (2 ^ 32 - 2 ^ k)) ip
      ∙ ap (bit_and (shifted k q + r)) mask
      ∙ and_shifted k q (shifted n 1 - 1) r (omega (arith, pow_shifted k))
      ∙ ap (shifted k) (and_ones n q (omega (arith, pow_shifted n)))

  -- The IPv4 case of addr_is_in_same_network, with a mask of n bits, n above 0, says of two addresses, each
  -- of a prefix of n bits and a rest of 32 - n, whether their prefixes are the same.
  pub same_network_v4_prefix :
      (q1 q2 r1 r2 : ℕ)
      → 0 < n
      → q1 < 2 ^ n
      → q2 < 2 ^ n
      → r1 < 2 ^ k
      → r2 < 2 ^ k
      → same_network_v4 n (q1 * 2 ^ k + r1) (q2 * 2 ^ k + r2) ≡ some (q1 == q2)
  unfolding same_network_v4
  same_network_v4_prefix q1 q2 r1 r2 np h1 h2 l1 l2 =
      let within : ltb 32 n ≡ false = ground arith in
      let some_bits : (n == 0) ≡ false = ground arith in
      let k_is : 32 - n ≡ k = omega arith in
      rw (within, some_bits, k_is, masked q1 r1 h1 l1, masked q2 r2 h2 l2)
        (ap (λ b. some b) (same_shifted k q1 q2))
