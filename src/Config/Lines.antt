-- ===== src/Config/Lines.antt =====
-- Reading the lines of a file, and one line "key = value", of src/log_utils.c.
use logstats.Base.{
  ℕ, zero, suc, ◌+◌, ◌-◌, ◌≤◌, ◌<◌, ◌≡◌, refl, sym, ap, ◌∙◌, Bool, true, false, Option, none, some,
  List, [], ◌∷◌, ◌++◌, ◌==◌, arith, length, length-append, not, ◌&&◌, append_assoc,
}
use logstats.LogLine.Words.{chop-append}
use logstats.NameTree.Tree.{Name}
use logstats.Config.{
  Config, Decimal, conf_line_len, strip_end, strip_front, strip, split_line, line_of, lines_of,
  joined_text, set_field, setting, config_line, printed, ended,
}
use logstats.Config.Strip.{split_line-at, strip_end-append, strip_end-solid}

-- No byte is a newline.
abbrev pub OneLine : Name → Type 0
OneLine [] = Unit {0}
OneLine (c ∷ s) = ((c == b'\n') ≡ false) × OneLine s

-- The lines that fgets reads as they are.
abbrev pub Lines : List Name → Type 0
Lines [] = Unit {0}
Lines (l ∷ ls) = (OneLine l × (length l + 2 < conf_line_len)) × Lines ls

line_of-line :
    (n : ℕ) (l s : Name)
    → OneLine l
    → length l < n
    → line_of n (l ++ b'\n' ∷ s) ≡ (l ++ b'\n' ∷ [], s)
unfolding line_of
line_of-line zero l s h lt = elim lt [ ]
line_of-line (suc n) [] s h lt = refl
line_of-line (suc n) (c ∷ l) s h lt = rw (h.0, line_of-line n l s h.1 (omega arith)) refl

lines_of-line :
    (fuel : ℕ) (l s : Name)
    → OneLine l
    → length l + 2 < conf_line_len
    → lines_of (suc fuel) (l ++ b'\n' ∷ s) ≡ (l ++ b'\n' ∷ []) ∷ lines_of fuel s
unfolding lines_of
lines_of-line fuel [] s h lt =
    ap (λ (r : Name × Name). r.0 ∷ lines_of fuel r.1)
      (line_of-line (conf_line_len - 1) [] s h (omega arith))
lines_of-line fuel (c ∷ l) s h lt =
    ap (λ (r : Name × Name). r.0 ∷ lines_of fuel r.1)
      (line_of-line (conf_line_len - 1) (c ∷ l) s h (omega arith))

-- The lines of a text are those it is made of, if none is too long.
pub lines_of-ended :
    (fuel : ℕ) (ls : List Name)
    → Lines ls
    → length ls ≤ fuel
    → lines_of fuel (joined_text (ended ls)) ≡ ended ls
unfolding lines_of joined_text
lines_of-ended zero [] h le = refl
lines_of-ended (suc fuel) [] h le = refl
lines_of-ended zero (l ∷ ls) h le = elim le [ ]
lines_of-ended (suc fuel) (l ∷ ls) h le =
    ap (λ t. lines_of (suc fuel) t) (append_assoc l (b'\n' ∷ []) (joined_text (ended ls)))
    ∙ lines_of-line fuel l (joined_text (ended ls)) h.0.0 h.0.1
    ∙ ap (λ r. (l ++ b'\n' ∷ []) ∷ r) (lines_of-ended fuel ls h.1 (omega arith))

pub length-ended : (ls : List Name) → length ls ≤ length (joined_text (ended ls))
unfolding joined_text
length-ended [] = omega arith
length-ended (l ∷ ls) = omega (
  arith,
  length-ended ls,
  length-append (l ++ b'\n' ∷ []) (joined_text (ended ls)),
  length-append l (b'\n' ∷ []),
)

-- The same, as a test.
abbrev pub one_line : Name → Bool
one_line [] = true
one_line (c ∷ s) = not (c == b'\n') && one_line s

parts : (p q : Bool) → (not p && q) ≡ true → (p ≡ false) × (q ≡ true)
parts true q h = absurd (cc)
parts false q h = (refl, h)

one_line-append : (a b : Name) → one_line a ≡ true → OneLine b → OneLine (a ++ b)
one_line-append [] b h k = k
one_line-append (c ∷ a) b h k =
    let both = parts (c == b'\n') (one_line a) h in (both.0, one_line-append a b both.1 k)

pub printed_line :
    (key value : Name)
    → one_line key ≡ true
    → length key < 20
    → OneLine value
    → length value < 1000
    → OneLine (printed key value) × (length (printed key value) + 2 < conf_line_len)
printed_line key value h short k fits = (
  one_line-append key (b' ' ∷ b'=' ∷ b' ' ∷ value) h (refl, (refl, (refl, k))),
  omega (arith, length-append key (b' ' ∷ b'=' ∷ b' ' ∷ value)),
)

length-nonzero : (a : Name) (d : ℕ) (s : Name) → (length (a ++ d ∷ s) == 0) ≡ false
length-nonzero [] d s = ground arith
length-nonzero (c ∷ a) d s = ground arith

strip-printed :
    (c : ℕ) (k value : Name)
    → (c == b' ') ≡ false
    → strip (printed (c ∷ k) value) ≡ ((c ∷ k) ++ b' ' ∷ []) ++ b'=' ∷ strip_end (b' ' ∷ value)
unfolding strip strip_front
strip-printed c k value solid =
    let tail : Name = b'=' ∷ b' ' ∷ value in
    let split : printed (c ∷ k) value ≡ ((c ∷ k) ++ b' ' ∷ []) ++ tail =
      sym (append_assoc (c ∷ k) (b' ' ∷ []) tail) in
    let end : strip_end (printed (c ∷ k) value)
        ≡ ((c ∷ k) ++ b' ' ∷ []) ++ b'=' ∷ strip_end (b' ' ∷ value) =
      ap strip_end split
      ∙ strip_end-append ((c ∷ k) ++ b' ' ∷ []) tail (strip_end (b' ' ∷ value)) b'='
          (strip_end-solid b'=' (b' ' ∷ value) refl) in
    ap strip_front end ∙ rw solid refl

module _ (decimal : Decimal) where
  setting-printed :
      (conf : Config) (c : ℕ) (k value : Name)
      → (c == b' ') ≡ false
      → split_line ((c ∷ k) ++ b' ' ∷ []) ≡ ((c ∷ k) ++ b' ' ∷ [], none)
      → strip ((c ∷ k) ++ b' ' ∷ []) ≡ c ∷ k
      → setting decimal conf (printed (c ∷ k) value ++ b'\n' ∷ [])
        ≡ set_field decimal conf (c ∷ k) (strip (strip_end (b' ' ∷ value)))
  unfolding setting
  setting-printed conf c k value solid free stripped =
      let parts =
        ap (λ t. split_line (strip t)) (chop-append (printed (c ∷ k) value) b'\n')
        ∙ ap split_line (strip-printed c k value solid)
        ∙ split_line-at ((c ∷ k) ++ b' ' ∷ []) (strip_end (b' ' ∷ value)) free in
      ap
        (λ (q : Name × Option Name). elim q.1 [
          | none ↦ none
          | some p ↦ set_field decimal conf (strip q.0) (strip p)
        ])
        parts
      ∙ ap (λ key. set_field decimal conf key (strip (strip_end (b' ' ∷ value)))) stripped

  config_line-setting :
      (conf : Config) (c : ℕ) (line : Name)
      → (c == b'#') ≡ false
      → (length line == 0) ≡ false
      → config_line decimal conf (c ∷ line) ≡ setting decimal conf (c ∷ line)
  unfolding config_line
  config_line-setting conf c line plain more = rw (more, plain) refl

  -- A line that config_output prints for a setting, read again.
  pub config_line-printed :
      (conf : Config) (c : ℕ) (k value : Name)
      → (c == b' ') ≡ false
      → (c == b'#') ≡ false
      → split_line ((c ∷ k) ++ b' ' ∷ []) ≡ ((c ∷ k) ++ b' ' ∷ [], none)
      → strip ((c ∷ k) ++ b' ' ∷ []) ≡ c ∷ k
      → config_line decimal conf (printed (c ∷ k) value ++ b'\n' ∷ [])
        ≡ set_field decimal conf (c ∷ k) (strip (strip_end (b' ' ∷ value)))
  config_line-printed conf c k value solid plain free stripped =
      config_line-setting conf c (k ++ b' ' ∷ b'=' ∷ b' ' ∷ value ++ b'\n' ∷ []) plain
        (length-nonzero (k ++ b' ' ∷ b'=' ∷ b' ' ∷ value) b'\n' [])
      ∙ setting-printed conf c k value solid free stripped
