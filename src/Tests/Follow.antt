-- ===== src/Tests/Follow.antt =====
-- A log of src/main.c to which a line is written, which is then replaced, and to which another is written.
use logstats.Base.{◌≡◌, refl, inl, true, false, none, some, List, [], ◌∷◌, ◌++◌, arith}
use logstats.NameTree.Tree.{Name}
use logstats.ViewStats.{bytes}
use logstats.Main.{
  LogFile, Follower, newline, reading, get_inode, open_log, lstat, main_step, main_start, append,
  append_to, rotate,
}
use logstats.Main.Lines.{here, later, IsLine}
use logstats.Main.Place.{Followed}
use logstats.Main.Follow.{Trace, begin, move, write, replace, Trace-Followed}
use logstats.Main.Caught.{Caught, Trace-Caught}
use logstats.Main.Sticky.{AtEnd, play, play_deaf}

-- A house keeper that keeps the lines.
abbrev keep : List Name → Name → List Name
keep lines line = lines ++ line ∷ []

abbrev first_line : Name
first_line = bytes "a" ++ newline ∷ []

abbrev second_line : Name
second_line = bytes "b" ++ newline ∷ []

first_line-IsLine : IsLine first_line
first_line-IsLine = record { ends = later b'a' refl here; short = omega arith }

second_line-IsLine : IsLine second_line
second_line-IsLine = record { ends = later b'b' refl here; short = omega arith }

abbrev old_log : LogFile
old_log = record { inode = 7; text = bytes "old" }

abbrev new_log : LogFile
new_log = record { inode = 8; text = [] }

abbrev started : Follower keep false
started = main_step keep false (main_start keep false [] (some old_log) 0 0)

abbrev written_to : Follower keep false
written_to = append keep false first_line (main_step keep false started)

abbrev replaced : Follower keep false
replaced = append keep false second_line (rotate keep false new_log written_to)

replaced-Trace : Trace keep [] (first_line ∷ second_line ∷ []) replaced
unfolding main_start main_step open_log lstat append append_to get_inode
replaced-Trace = write second_line second_line-IsLine (
    replace new_log refl refl (ground arith) refl
      (write first_line first_line-IsLine (move (begin old_log 0 0))))

Trace-Followed_example : Followed keep [] (first_line ∷ second_line ∷ []) replaced
Trace-Followed_example =
    Trace-Followed keep [] (first_line ∷ second_line ∷ []) replaced replaced-Trace

Trace-Caught_example : Caught keep [] (first_line ∷ second_line ∷ []) replaced
Trace-Caught_example = Trace-Caught keep [] (first_line ∷ second_line ∷ []) replaced replaced-Trace

abbrev at_end : Follower keep true
at_end = record {
  path = some old_log;
  phase = reading;
  first = true;
  inode = 7;
  unread = [];
  eof = true;
  sbuf = 7;
  last_inode = 7;
  keeper = [];
}

at_end-AtEnd : AtEnd keep at_end
unfolding get_inode
at_end-AtEnd = record { phase = inl refl; eof = refl; file = old_log; path = refl; inode = refl }

play_deaf_example :
    (play keep (some first_line ∷ none ∷ none ∷ none ∷ []) at_end).keeper ≡ at_end.keeper
play_deaf_example = play_deaf keep (some first_line ∷ none ∷ none ∷ none ∷ []) at_end at_end-AtEnd
