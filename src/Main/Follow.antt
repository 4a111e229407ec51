-- ===== src/Main/Follow.antt =====
-- The order in which src/main.c handles the lines of its log file, while a writer appends and rotates.
use logstats.Base.{◌≡◌, ◌≢◌, refl, ℕ, false, some, List, [], ◌∷◌, ◌++◌}
use logstats.NameTree.Tree.{Name}
use logstats.Main.{
  LogFile, get_inode, reading, open_log, lstat, main_step, main_start, append, rotate,
}
use logstats.Main.Lines.{IsLine, nothing}
use logstats.Main.Place.{handle_all, Follows, fresh, Followed}
use logstats.Main.Moves.{main_step-Place, append-Place, rotate-Place}

module _ {K : Type 0} (handle : K → Name → K) where
  -- The runs of the program and a writer of whole lines of at most 1023 bytes, from the first opening of the
  -- log, with the lines that were written, each to the file that the path names. The file is replaced, by an
  -- empty one of another inode, only while the program reads the file that the path names: not between the
  -- fgets that meets the end of the file and the lstat behind it, nor between fopen and lstat, where lines
  -- are lost. The stream goes on behind an end of file that it has met.
  pub data Trace (k : K) : List Name → Follows handle → Type 0 where
    begin :
        (f : LogFile) (sbuf last_inode : ℕ)
        → Trace k [] (main_step handle false (main_start handle false k (some f) sbuf last_inode))
    move :
        {written : List Name} {s : Follows handle}
        → Trace k written s
        → Trace k written (main_step handle false s)
    write :
        {written : List Name} {s : Follows handle} (line : Name)
        → IsLine line
        → Trace k written s
        → Trace k (written ++ line ∷ []) (append handle false line s)
    replace :
        {written : List Name} {s : Follows handle} (f : LogFile)
        → s.phase ≡ reading
        → get_inode (lstat handle false s) ≡ s.last_inode
        → get_inode f.inode ≢ s.last_inode
        → f.text ≡ []
        → Trace k written s
        → Trace k written (rotate handle false f s)

  -- In every state of a run in which a writer adds whole lines of at most 1023 bytes to the file that the path
  -- names and replaces it, by an empty file of another inode, only while the program reads that file (not
  -- between an end of file or fopen and the lstat behind it), and in which the stream goes on behind an end of
  -- file: the lines that the house keeper has been given are a part of those
  -- written from the first on, each once and in order, and the others are still to be read, in order.
  pub Trace-Followed :
      (k : K) (written : List Name) (s : Follows handle)
      → Trace k written s
      → Followed handle k written s
  unfolding main_step main_start open_log handle_all
  Trace-Followed k written s (begin f sbuf last_inode) = record {
    handled = [];
    pending = [];
    newer = [];
    keeper = refl;
    all = refl;
    place = fresh nothing;
  }
  Trace-Followed k written s (move {s = from} t) =
      let h = Trace-Followed k written from t in
      main_step-Place handle k written from h.handled h.pending h.newer h.keeper h.all h.place
  Trace-Followed k written s (write {written = before} {s = from} line l t) =
      let h = Trace-Followed k before from t in
      append-Place handle k before from line h.handled h.pending h.newer l h.keeper h.all h.place
  Trace-Followed k written s (replace {s = from} f p n d e t) =
      let h = Trace-Followed k written from t in
      rotate-Place handle k written from f h.handled h.pending h.newer p n d e h.keeper h.all
        h.place
