-- ===== src/Config/Strip.antt =====
-- strip of src/log_utils.c, and the splitting of a line at its '='.
use logstats.Base.{
  ℕ, ◌≡◌, refl, sym, ap, ◌∙◌, Bool, true, false, Option, none, some, [], ◌∷◌, ◌++◌, ◌==◌,
  if◌then◌else◌, arith, Bool-cases, inl, inr,
}
use logstats.LogLine.Words.{Solid}
use logstats.NameTree.Tree.{Name}
use logstats.Config.{strip_end, strip_front, strip, split_line}

-- Neither end is a space.
pub record Stripped (s : Name) : Type 0 where
  pub end : strip_end s ≡ s
  pub front : strip_front s ≡ s

pub strip_end-solid : (d : ℕ) (s : Name) → (d == b' ') ≡ false → strip_end (d ∷ s) ≡ d ∷ strip_end s
unfolding strip_end
strip_end-solid d s h =
    elim (strip_end s)
      as (λ t. elim t [ [] ↦ (if d == b' ' then [] else d ∷ []) | e ∷ u ↦ d ∷ e ∷ u ] ≡ d ∷ t) [
        | [] ↦ rw h refl
        | e ∷ u ↦ refl
      ]

pub strip_end-cons : (c d : ℕ) (s t : Name) → strip_end s ≡ d ∷ t → strip_end (c ∷ s) ≡ c ∷ d ∷ t
unfolding strip_end
strip_end-cons c d s t h = rw h refl

-- What ends with a byte that is not a space keeps all that stands before.
pub strip_end-append :
    (a s t : Name) (d : ℕ) → strip_end s ≡ d ∷ t → strip_end (a ++ s) ≡ a ++ d ∷ t
strip_end-append [] s t d h = h
strip_end-append (c ∷ []) s t d h = strip_end-cons c d s t h
strip_end-append (c ∷ e ∷ a) s t d h =
    strip_end-cons c e (e ∷ a ++ s) (a ++ d ∷ t) (strip_end-append (e ∷ a) s t d h)

pub strip_end-Solid : (s : Name) → Solid s → strip_end s ≡ s
unfolding strip_end
strip_end-Solid [] h = refl
strip_end-Solid (c ∷ s) h = strip_end-solid c s h.0 ∙ ap (λ t. c ∷ t) (strip_end-Solid s h.1)

pub Solid-Stripped : (s : Name) → Solid s → Stripped s
unfolding strip_front
Solid-Stripped [] h = record { end = strip_end-Solid [] h; front = refl }
Solid-Stripped (c ∷ s) h = record { end = strip_end-Solid (c ∷ s) h; front = rw (h.0) refl }

-- One byte in front of a string whose end is stripped.
capped : ℕ → Name → Name
capped c [] = if c == b' ' then [] else c ∷ []
capped c (d ∷ t) = c ∷ d ∷ t

strip_end-capped : (c : ℕ) (s : Name) → strip_end (c ∷ s) ≡ capped c (strip_end s)
unfolding strip_end capped
strip_end-capped c s =
    elim (strip_end s)
      as (λ t.
        elim t [ [] ↦ (if c == b' ' then [] else c ∷ []) | d ∷ u ↦ c ∷ d ∷ u ] ≡ capped c t) [
          | [] ↦ refl
          | d ∷ u ↦ refl
        ]

capped-end : (c : ℕ) (t : Name) → strip_end t ≡ t → strip_end (capped c t) ≡ capped c t
unfolding capped strip_end
capped-end c [] h = ground arith
capped-end c (d ∷ t) h = strip_end-cons c d (d ∷ t) t h

pub strip_end_twice : (s : Name) → strip_end (strip_end s) ≡ strip_end s
unfolding strip_end
strip_end_twice [] = refl
strip_end_twice (c ∷ s) = rw (strip_end-capped c s) (capped-end c (strip_end s) (strip_end_twice s))

tail-end : (c : ℕ) (s t : Name) → capped c t ≡ c ∷ s → t ≡ s
unfolding capped
tail-end c s [] h = ground arith
tail-end c s (d ∷ t) h = cc

strip_front-end : (s : Name) → strip_end s ≡ s → strip_end (strip_front s) ≡ strip_front s
unfolding strip_front
strip_front-end [] h = h
strip_front-end (c ∷ s) h =
    let rest = strip_front-end s (tail-end c s (strip_end s) (sym (strip_end-capped c s) ∙ h)) in
    elim (Bool-cases (c == b' ')) [ inl e ↦ rw e rest | inr e ↦ rw e h ]

strip_front_twice : (s : Name) → strip_front (strip_front s) ≡ strip_front s
unfolding strip_front
strip_front_twice [] = refl
strip_front_twice (c ∷ s) = elim (Bool-cases (c == b' ')) [
  | inl e ↦ rw e (strip_front_twice s)
  | inr e ↦ rw (e, e) refl
]

-- strip leaves no space at either end, and stripping again changes nothing.
pub strip-Stripped : (s : Name) → Stripped (strip s) × (strip (strip s) ≡ strip s)
unfolding strip
strip-Stripped s =
    let end = strip_front-end (strip_end s) (strip_end_twice s) in
    let front = strip_front_twice (strip_end s) in
    (record { end = end; front = front }, ap strip_front end ∙ front)

split_tail :
    (b : Bool) (c : ℕ) (s : Name) (r : Name × Option Name)
    → ◌≡◌ {A = Name × Option Name} (if b then ([], some s) else (c ∷ r.0, r.1)) (c ∷ s, none)
    → (b ≡ false) × (r ≡ (s, none))
split_tail true c s r h = absurd (cc)
split_tail false c s (x, y) h = (refl, cc)

-- What has no '=' in it, before one.
pub split_line-at :
    (a v : Name) → split_line a ≡ (a, none) → split_line (a ++ b'=' ∷ v) ≡ (a, some v)
unfolding split_line
split_line-at [] v h = refl
split_line-at (c ∷ a) v h =
    let t = split_tail (c == b'=') c a (split_line a) h in rw (t.0, split_line-at a v t.1) refl

-- The value behind "= ", stripped with the line and by itself.
pub strip-value : (v : Name) → Stripped v → strip (strip_end (b' ' ∷ v)) ≡ v
unfolding strip strip_end strip_front
strip-value [] h = refl
strip-value (c ∷ v) h = let once = strip_end-cons b' ' c (c ∷ v) v h.end in rw (once, once) h.front
