-- ===== src/Config/Find.antt =====
-- rev_find_str of src/log_utils.c.
use logstats.Base.{
  ℕ, zero, suc, ◌-◌, ◌≤◌, ◌<◌, ◌≡◌, ◌≢◌, ◌⊎◌, inl, inr, refl, ap, ◌∙◌, pos, some, Bool-cases,
  ==_iff, ◌==◌, arith,
}
use logstats.Config.{rev_find, rev_find_str}

-- `r` is the place behind the last `ch` of the first `n` bytes, or 0 where there is none.
pub record Last (n : ℕ) (str : ℕ → ℕ) (ch r : ℕ) : Type 0 where
  pub within : r ≤ n
  pub behind : (i : ℕ) → r ≤ i → i < n → str i ≢ ch
  pub found : (r ≡ 0) ⊎ (str (r - 1) ≡ ch)

rev_find-Last : (n : ℕ) (str : ℕ → ℕ) (ch : ℕ) → Last n str ch (rev_find n str ch)
unfolding rev_find
rev_find-Last zero str ch = record {
  within = omega arith;
  behind = λ i a b. absurd (omega arith);
  found = inl refl;
}
rev_find-Last (suc n) str ch =
    let rest = rev_find-Last n str ch in
    elim (Bool-cases (str n == ch)) [
      | inl e ↦ rw e (record {
        within = omega arith;
        behind = λ i a b. absurd (omega arith);
        found = inr (ap str (omega arith) ∙ (==_iff (str n) ch).0 e);
      })
      | inr e ↦ rw e (record {
        within = omega (arith, rest.within);
        behind = λ i a b f. elim (Bool-cases (i == n)) [
          | inl here ↦ ground (arith, ap str ((==_iff i n).0 here))
          | inr before ↦ rest.behind i a (ground arith) f
        ];
        found = rest.found;
      })
    ]

-- rev_find_str returns the place behind the last of the bytes that is `ch`, or 0 where there is none.
pub rev_find_str-Last :
    (n : ℕ) (str : ℕ → ℕ) (ch : ℕ)
    → (r : ℕ) × (rev_find_str n (some str) ch ≡ pos r) × Last n str ch r
unfolding rev_find_str
rev_find_str-Last n str ch = (rev_find n str ch, refl, rev_find-Last n str ch)
