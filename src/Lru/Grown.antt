-- ===== src/Lru/Grown.antt =====
-- A list of src/zip_lru_list.c to whose values a new one has come, in a structure that has it too.
use mathlib.Core.List.{Memᴰ}
use logstats.Base.{
  ℕ, ◌≡◌, ◌≢◌, refl, sym, ap, subst, ◌∙◌, ◌⊎◌, inl, inr, Option, some, some_inj, [], ◌∷◌,
}
use logstats.Lru.Listed.{Listed, Unlike, OwnCell}
use logstats.Lru.Seg.{Cells}

-- `key'` and `Has'` are the names and the structure with the new value `p`.
module _ {N T : Type 0} (key key' : ℕ → N) (Has Has' : T → ℕ → Type 0) (t t' : T) (p : ℕ)
    (others : (q : ℕ) → Has t q → (q ≢ p) × (key' q ≡ key q) × (key q ≢ key' p) × Has' t' q) where
  Unlike-grown :
      (q : ℕ) (xs : Cells)
      → key' q ≡ key q
      → Listed key Has t xs
      → Unlike key Has q xs
      → Unlike key' Has' q xs
  Unlike-grown q [] e h u = tt
  Unlike-grown q ((k, r) ∷ xs) e h u =
      let (ne, same, differs, has) = others r h.0 in
      ((λ f. u.0 (sym same ∙ (f ∙ e))), Unlike-grown q xs e h.2 u.1)

  Unlike-own : (xs : Cells) → Listed key Has t xs → Unlike key' Has' p xs
  Unlike-own [] h = tt
  Unlike-own ((k, r) ∷ xs) h =
      let (ne, same, differs, has) = others r h.0 in
      ((λ f. differs (sym same ∙ f)), Unlike-own xs h.2)

  Listed-rest : (xs : Cells) → Listed key Has t xs → Listed key' Has' t' xs
  Listed-rest [] h = tt
  Listed-rest ((k, q) ∷ xs) h =
      let (ne, same, differs, has) = others q h.0 in
      (has, Unlike-grown q xs same h.2 h.1, Listed-rest xs h.2)

  -- With the new value in front.
  pub Listed-grown :
      (k : ℕ) (xs : Cells) → Has' t' p → Listed key Has t xs → Listed key' Has' t' ((k, p) ∷ xs)
  Listed-grown k xs has h = (has, Unlike-own xs h, Listed-rest xs h)

-- What is found has its own cell, the new value too.
module _ {N : Type 0} (key key' : ℕ → N) (ptr ptr' : ℕ → ℕ) (found found' : N → Option (ℕ × ℕ))
    (node p : ℕ) (decide : (j : N) → (j ≡ key' p) ⊎ (j ≢ key' p)) where
  pub OwnCell-grown :
      (xs : Cells)
      → found' (key' p) ≡ some (node, p)
      → ((j : N) → j ≢ key' p → found' j ≡ found j)
      → ((j : N) (n q : ℕ) → found j ≡ some (n, q) → (key' q ≡ key q) × (ptr' q ≡ ptr q))
      → ((j : N) (n q : ℕ) → found j ≡ some (n, q) → OwnCell key ptr xs j q)
      → (j : N) (n q : ℕ) → found' j ≡ some (n, q)
      → OwnCell key' ptr' ((ptr' p, p) ∷ xs) j q
  OwnCell-grown xs here others same all j n q e = elim (decide j) [
    | inl own ↦
        let at_p : q ≡ p = ap (λ (m : ℕ × ℕ). m.1) (some_inj (sym e ∙ (ap found' own ∙ here))) in
        subst (λ r. OwnCell key' ptr' ((ptr' p, p) ∷ xs) j r) (sym at_p)
          (record { name = sym own; inside = Memᴰ.head refl })
    | inr ne ↦
        let was = sym (others j ne) ∙ e in
        let c = all j n q was in
        let (key_same, ptr_same) = same j n q was in
        record {
          name = key_same ∙ c.name;
          inside = Memᴰ.tail (subst (λ a. Memᴰ (a, q) xs) (sym ptr_same) c.inside);
        }
  ]
