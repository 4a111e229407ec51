-- ===== src/Main/Lines.antt =====
-- Whole lines of a log file, and what fgets takes of them.
use logstats.Base.{
  ◌≡◌, refl, sym, subst, append-nil, append_assoc, ◌≤◌, ℕ, zero, suc, false, true, List, [], ◌∷◌,
  ◌++◌, ◌==◌, length, arith,
}
use logstats.NameTree.Tree.{Name}
use logstats.Main.{newline, line_room, take_line}

-- The bytes of a line and its newline.
pub data Ends : Name → Type 0 where
  here : Ends (newline ∷ [])
  later : {s : Name} (c : ℕ) → (c == newline) ≡ false → Ends s → Ends (c ∷ s)

-- A line that fits in strbuf.
pub record IsLine (line : Name) : Type 0 where
  pub ends : Ends line
  pub short : length line ≤ line_room

take_line-Ends :
    {line : Name} (n : ℕ) (rest : Name)
    → Ends line
    → length line ≤ n
    → take_line n (line ++ rest) ≡ (line, rest, false)
unfolding take_line
take_line-Ends zero rest here h = absurd (omega (arith, h))
take_line-Ends (suc n) rest here h = refl
take_line-Ends zero rest (later c e l) h = absurd (omega (arith, h))
take_line-Ends (suc n) rest (later {s = s} c e l) h =
    rw (e, take_line-Ends n rest l (omega (arith, h))) refl

-- fgets takes a whole line.
pub take_line-IsLine :
    (line rest : Name) → IsLine line → take_line line_room (line ++ rest) ≡ (line, rest, false)
take_line-IsLine line rest h = take_line-Ends line_room rest h.ends h.short

pub take_line_nil : take_line line_room [] ≡ ([], [], true)
unfolding take_line
take_line_nil = refl

-- A text that is these lines, one after the other.
pub data Lines : List Name → Name → Type 0 where
  nothing : Lines [] []
  then_line :
      {lines : List Name} {text : Name} (line : Name)
      → IsLine line
      → Lines lines text
      → Lines (line ∷ lines) (line ++ text)

pub Lines-snoc :
    {lines : List Name} {text : Name} (line : Name)
    → Lines lines text
    → IsLine line
    → Lines (lines ++ line ∷ []) (text ++ line)
Lines-snoc line nothing h = subst (Lines (line ∷ [])) (append-nil line) (then_line line h nothing)
Lines-snoc line (then_line {lines = lines} {text = text} first g l) h =
    subst (Lines (first ∷ (lines ++ line ∷ []))) (sym (append_assoc first text line))
      (then_line first g (Lines-snoc line l h))
