-- ===== src/Lru/Listed.antt =====
-- What the nodes of a list point to: values of different names, each of which some structure has.
use mathlib.Core.List.{Memᴰ}
use mathlib.Core.List.Memᴰ
use logstats.Base.{◌∙◌, Option, none, some, ℕ, ◌≡◌, ◌≢◌, ap, sym, inl, inr, [], ◌∷◌, ◌++◌}
use logstats.Lru.Seg.{Cells}

module _ {N T : Type 0} (name : ℕ → N) (Has : T → ℕ → Type 0) where
  -- No value of the list has the name of `p`.
  abbrev pub Unlike : ℕ → Cells → Type 0
  Unlike p [] = Unit {0}
  Unlike p ((k, q) ∷ xs) = (name q ≢ name p) × Unlike p xs

  -- The structure has every value of the list, and their names differ.
  abbrev pub Listed : T → Cells → Type 0
  Listed t [] = Unit {0}
  Listed t ((k, p) ∷ xs) = Has t p × Unlike p xs × Listed t xs

  Unlike-drop :
      (q k p : ℕ) (ys : Cells) → Unlike q (ys ++ (k, p) ∷ []) → Unlike q ys × (name p ≢ name q)
  Unlike-drop q k p [] u = (tt, u.0)
  Unlike-drop q k p ((l, r) ∷ ys) u = let ih = Unlike-drop q k p ys u.1 in ((u.0, ih.0), ih.1)

  pub Listed-drop :
      (t : T) (k p : ℕ) (ys : Cells)
      → Listed t (ys ++ (k, p) ∷ [])
      → Listed t ys × Has t p × Unlike p ys
  Listed-drop t k p [] h = (tt, h.0, tt)
  Listed-drop t k p ((l, q) ∷ ys) h =
      let ih = Listed-drop t k p ys h.2 in
      let u = Unlike-drop q k p ys h.1 in ((h.0, u.0, ih.0), ih.1, (λ e. u.1 (sym e), ih.2))

  -- A structure that has lost the name of `p` only still has the others.
  pub Listed-other :
      (t left : T) (p : ℕ) (ys : Cells)
      → ((q : ℕ) → name q ≢ name p → Has t q → Has left q)
      → Unlike p ys
      → Listed t ys
      → Listed left ys
  Listed-other t left p [] others u h = tt
  Listed-other t left p ((k, q) ∷ ys) others u h =
      (others q u.0 h.0, h.1, Listed-other t left p ys others u.1 h.2)

-- Only the name of `p` has changed.
module _ {N T : Type 0} (name name' : ℕ → N) (Has Has' : T → ℕ → Type 0) (p : ℕ)
    (same : (q : ℕ) → q ≢ p → name' q ≡ name q) where
  Unlike-renamed :
      (q : ℕ) (ys : Cells)
      → q ≢ p
      → Unlike name Has p ys
      → Unlike name Has q ys
      → Unlike name' Has' q ys
  Unlike-renamed q [] ne u v = tt
  Unlike-renamed q ((k, r) ∷ ys) ne u v =
      let nr : r ≢ p = λ e. u.0 (ap name e) in
      ((λ f. v.0 (sym (same r nr) ∙ (f ∙ same q ne))), Unlike-renamed q ys ne u.1 v.1)

  pub Listed-renamed :
      (t : T) (ys : Cells)
      → ((q : ℕ) → q ≢ p → Has t q → Has' t q)
      → Unlike name Has p ys
      → Listed name Has t ys
      → Listed name' Has' t ys
  Listed-renamed t [] has u h = tt
  Listed-renamed t ((k, q) ∷ ys) has u h =
      let nq : q ≢ p = λ e. u.0 (ap name e) in
      (has q nq h.0, Unlike-renamed q ys nq u.1 h.1, Listed-renamed t ys has u.1 h.2)

-- A cell of a list is somewhere in it.
pub split_at_cell :
    {c : ℕ × ℕ} {xs : Cells} → Memᴰ c xs → (ys : Cells) × (zs : Cells) × (xs ≡ ys ++ c ∷ zs)
split_at_cell {xs = []} m = elim m [ ]
split_at_cell {xs = x ∷ xs} (Memᴰ.head e) = ([], xs, ap (λ d. d ∷ xs) (sym e))
split_at_cell {xs = x ∷ xs} (Memᴰ.tail m) =
    let (ys, zs, e) = split_at_cell m in (x ∷ ys, zs, ap (λ us. x ∷ us) e)

-- The cells of a list of which one has gone to the front.
pub cell_moved : {c d : ℕ × ℕ} (ys zs : Cells) → Memᴰ c (ys ++ d ∷ zs) → Memᴰ c (d ∷ (ys ++ zs))
cell_moved ys zs m = elim (Memᴰ.append_cases ys m) [
  | inl before ↦ Memᴰ.tail (Memᴰ.append_left zs before)
  | inr rest ↦ elim (Memᴰ.cases_cons rest) [
    | inl e ↦ Memᴰ.head e
    | inr after ↦ Memᴰ.tail (Memᴰ.append_right ys after)
  ]
]

-- What is found under a key has this key, and its own cell in the list.
module _ {N : Type 0} (key : ℕ → N) (ptr : ℕ → ℕ) where
  pub record OwnCell (xs : Cells) (j : N) (p : ℕ) : Type 0 where
    pub name : key p ≡ j
    pub inside : Memᴰ (ptr p, p) xs

  -- The last value of the list can be found no more, and is gone from the list.
  pub OwnCell-rest :
      (found left : N → Option (ℕ × ℕ)) (k p : ℕ) (ys : Cells)
      → ((j : N) (n q : ℕ) → found j ≡ some (n, q) → OwnCell (ys ++ (k, p) ∷ []) j q)
      → left (key p) ≡ none
      → ((j : N) → j ≢ key p → left j ≡ found j)
      → (j : N) (n q : ℕ) → left j ≡ some (n, q)
      → OwnCell ys j q
  OwnCell-rest found left k p ys all gone others j n q e =
      let ne : j ≢ key p = λ same. absurd (cc (e, gone, ap left same)) in
      let c = all j n q (sym (others j ne) ∙ e) in
      record {
        name = c.name;
        inside = elim (Memᴰ.append_cases ys c.inside) [
          | inl before ↦ before
          | inr last ↦
              let same = ap (λ (u : ℕ × ℕ). u.1) (Memᴰ.eq_of_singleton last) in
              absurd (ne (sym c.name ∙ ap key same))
        ];
      }

-- Values of different names stay such where one goes to the front.
module _ {N T : Type 0} (name : ℕ → N) (Has : T → ℕ → Type 0) where
  Unlike-middle :
      (q k p : ℕ) (ys zs : Cells)
      → Unlike name Has q (ys ++ (k, p) ∷ zs)
      → Unlike name Has q (ys ++ zs) × (name p ≢ name q)
  Unlike-middle q k p [] zs u = (u.1, u.0)
  Unlike-middle q k p ((l, r) ∷ ys) zs u =
      let ih = Unlike-middle q k p ys zs u.1 in ((u.0, ih.0), ih.1)

  pub Listed-moved :
      (t : T) (k p : ℕ) (ys zs : Cells)
      → Listed name Has t (ys ++ (k, p) ∷ zs)
      → Listed name Has t ((k, p) ∷ (ys ++ zs))
  Listed-moved t k p [] zs h = h
  Listed-moved t k p ((l, q) ∷ ys) zs h =
      let ih = Listed-moved t k p ys zs h.2 in
      let u = Unlike-middle q k p ys zs h.1 in (ih.0, ((λ e. u.1 (sym e)), ih.1), (h.0, u.0, ih.2))
