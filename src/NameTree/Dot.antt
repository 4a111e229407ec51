-- ===== src/NameTree/Dot.antt =====
-- The final dot that src/log_name_tree.c gives to a name.
use logstats.Base.{
  ◌≡◌, ◌≢◌, ◌<◌, refl, sym, subst, ◌∙◌, ℕ, true, false, Bool-cases, inl, inr, none, some, some_inj,
  [], ◌∷◌, ◌++◌, ltb, ltb→lt, ◌==◌, if◌then◌else◌, length, arith,
}
use logstats.NameTree.{last_byte, with_dot, max_name_len}
use logstats.NameTree.Tree.{Name}

last_byte-append : (c d : ℕ) (s : Name) → last_byte c (s ++ d ∷ []) ≡ d
unfolding last_byte
last_byte-append c d [] = refl
last_byte-append c d (e ∷ s) = last_byte-append e d s

fitting :
    (s full : Name)
    → (if ltb (length s) max_name_len then some s else none) ≡ some full
    → (s ≡ full) × (length full < max_name_len)
fitting s full e = elim (Bool-cases (ltb (length s) max_name_len)) [
  | inl fits ↦
      let same : s ≡ full = some_inj (sym (rw fits refl) ∙ e) in
      (same, subst (λ u. length u < max_name_len) same (ltb→lt (length s) max_name_len fits))
  | inr long ↦ absurd (ground (arith, e, long))
]

dot_kept :
    (c : ℕ) (s : Name)
    → (last_byte c s == b'.') ≡ true
    → with_dot (c ∷ s) ≡ (if ltb (length (c ∷ s)) max_name_len then some (c ∷ s) else none)
unfolding with_dot
dot_kept c s dot = rw dot refl

dot_added :
    (c : ℕ) (s : Name)
    → (last_byte c s == b'.') ≡ false
    → let full = c ∷ (s ++ b'.' ∷ []) in
      with_dot (c ∷ s) ≡ (if ltb (length full) max_name_len then some full else none)
unfolding with_dot
dot_added c s no_dot = rw no_dot refl

dotted_name :
    (c : ℕ) (s : Name)
    → (last_byte c s == b'.') ≡ true
    → length (c ∷ s) < max_name_len
    → with_dot (c ∷ s) ≡ some (c ∷ s)
unfolding with_dot
dotted_name c s dot short =
    let fits : ltb (length (c ∷ s)) max_name_len ≡ true = ground arith in rw (dot, fits) refl

no_name : (full : Name) → with_dot [] ≢ some full
unfolding with_dot
no_name full e = cc

-- A name with its dot is one that gets no other.
pub with_dot-again :
    (name full : Name)
    → with_dot name ≡ some full
    → (with_dot full ≡ some full) × (length full < max_name_len)
with_dot-again [] full e = absurd (no_name full e)
with_dot-again (c ∷ name) full e = elim (Bool-cases (last_byte c name == b'.')) [
  | inl dot ↦
      let (same, fits) = fitting (c ∷ name) full (sym (dot_kept c name dot) ∙ e) in
      (subst (λ u. with_dot u ≡ some full) same e, fits)
  | inr no_dot ↦
      let s = name ++ b'.' ∷ [] in
      let (same, fits) = fitting (c ∷ s) full (sym (dot_added c name no_dot) ∙ e) in
      let dot : (last_byte c s == b'.') ≡ true = rw (last_byte-append c b'.' name) refl in
      let short = subst (λ u. length u < max_name_len) (sym same) fits in
      (subst (λ u. with_dot u ≡ some u) same (dotted_name c s dot short), fits)
]
