-- ===== src/Main/Place.antt =====
-- Where the loop of src/main.c stands in its log file, and what it does with one line.
use logstats.Base.{
  ◌≡◌, refl, ap, ◌∙◌, ℕ, Bool, true, false, some, List, [], ◌∷◌, ◌++◌, ◌==◌, ◌&&◌, ◌||◌,
}
use logstats.NameTree.Tree.{Name}
use logstats.Main.{
  LogFile, get_inode, Follower, opening, opened, reading, checking, read_line, took, line_room,
  take_line,
}
use logstats.Main.Lines.{IsLine, take_line-IsLine, take_line_nil, Lines}

module _ {K : Type 0} (handle : K → Name → K) where
  unfoldable pub handle_all : K → List Name → K
  handle_all k [] = k
  handle_all k (line ∷ lines) = handle_all (handle k line) lines

  pub handle_all-snoc :
      (k : K) (lines : List Name) (line : Name)
      → handle_all k (lines ++ line ∷ []) ≡ handle (handle_all k lines) line
  unfolding handle_all
  handle_all-snoc k [] line = refl
  handle_all-snoc k (first ∷ lines) line = handle_all-snoc (handle k first) lines line

  abbrev pub Follows : Type 0
  Follows = Follower handle false

  -- Where the program stands: the lines of the open file that it has not read, and those of the file that
  -- has taken its place.
  pub data Place : Follows → List Name → List Name → Type 0 where
    reopening :
        {f : LogFile} {i sb li : ℕ} {u : Name} {e : Bool} {k : K} {newer : List Name}
        → Lines newer f.text
        → Place
            (record {
              path = some f;
              phase = opening;
              first = true;
              inode = i;
              unread = u;
              eof = e;
              sbuf = sb;
              last_inode = li;
              keeper = k;
            })
            []
            newer
    fresh :
        {f : LogFile} {sb li : ℕ} {u : Name} {e : Bool} {k : K} {pending : List Name}
        → Lines pending u
        → Place
            (record {
              path = some f;
              phase = opened;
              first = true;
              inode = f.inode;
              unread = u;
              eof = e;
              sbuf = sb;
              last_inode = li;
              keeper = k;
            })
            pending
            []
    follows :
        {f : LogFile} {sb : ℕ} {u : Name} {e : Bool} {k : K} {pending : List Name}
        → Lines pending u
        → Place
            (record {
              path = some f;
              phase = reading;
              first = true;
              inode = f.inode;
              unread = u;
              eof = e;
              sbuf = sb;
              last_inode = get_inode f.inode;
              keeper = k;
            })
            pending
            []
    checks :
        {f : LogFile} {sb : ℕ} {u : Name} {k : K} {pending : List Name}
        → Lines pending u
        → Place
            (record {
              path = some f;
              phase = checking;
              first = true;
              inode = f.inode;
              unread = u;
              eof = true;
              sbuf = sb;
              last_inode = get_inode f.inode;
              keeper = k;
            })
            pending
            []
    replaced :
        {f : LogFile} {i sb li : ℕ} {u : Name} {e : Bool} {k : K} {pending newer : List Name}
        → (get_inode f.inode == li) ≡ false
        → (f.inode == i) ≡ false
        → Lines pending u
        → Lines newer f.text
        → Place
            (record {
              path = some f;
              phase = reading;
              first = true;
              inode = i;
              unread = u;
              eof = e;
              sbuf = sb;
              last_inode = li;
              keeper = k;
            })
            pending
            newer
    leaves :
        {f : LogFile} {i sb li : ℕ} {u : Name} {k : K} {newer : List Name}
        → (get_inode f.inode == li) ≡ false
        → (f.inode == i) ≡ false
        → Lines newer f.text
        → Place
            (record {
              path = some f;
              phase = checking;
              first = true;
              inode = i;
              unread = u;
              eof = true;
              sbuf = sb;
              last_inode = li;
              keeper = k;
            })
            []
            newer

  -- Of the lines that were written, some are handled; the others are still to be read, in order.
  pub record Followed (k : K) (written : List Name) (s : Follows) : Type 0 where
    pub handled : List Name
    pub pending : List Name
    pub newer : List Name
    pub keeper : s.keeper ≡ handle_all k handled
    pub all : handled ++ (pending ++ newer) ≡ written
    pub place : Place s pending newer

  and_false : (b : Bool) → (b && false) ≡ false
  and_false true = refl
  and_false false = refl

  or_true : (b : Bool) → (b || true) ≡ true
  or_true true = refl
  or_true false = refl

  took-line :
      (s : Follows) (line rest : Name)
      → IsLine line
      → took handle false s (line, rest, false)
        ≡ record s { unread = rest; eof = s.eof || false; keeper = handle s.keeper line }
  unfolding took
  took-line s [] rest h = elim h.ends [ ]
  took-line s (c ∷ more) rest h = rw (and_false s.eof) refl

  pub read_line-line :
      (s : Follows) (line rest : Name)
      → IsLine line
      → s.unread ≡ line ++ rest
      → read_line handle false s
        ≡ record s { unread = rest; eof = s.eof || false; keeper = handle s.keeper line }
  unfolding read_line
  read_line-line s line rest h e =
      ap (λ u. took handle false s (take_line line_room u)) e
      ∙ (ap (took handle false s) (take_line-IsLine line rest h) ∙ took-line s line rest h)

  pub read_line-end :
      (s : Follows)
      → s.unread ≡ []
      → read_line handle false s ≡ record s { phase = checking; eof = true }
  unfolding read_line took
  read_line-end s e =
      ap (λ u. took handle false s (take_line line_room u)) e
      ∙ (ap (took handle false s) take_line_nil ∙ rw (and_false s.eof, or_true s.eof) refl)
