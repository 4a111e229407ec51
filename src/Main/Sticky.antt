-- ===== src/Main/Sticky.antt =====
-- The loop of src/main.c on a stream that stays at an end of file that it has met.
use logstats.Base.{
  ◌≡◌, refl, sym, subst, Bool, ◌∙◌, ◌⊎◌, inl, inr, ◌==◌, true, Option, none, some, List, [], ◌∷◌,
  arith,
}
use logstats.NameTree.Tree.{Name}
use logstats.Main.{
  LogFile, get_inode, Follower, reading, checking, lstat, took, read_line, check_log, main_step,
  append, append_to, take_line, line_room,
}

module _ {K : Type 0} (handle : K → Name → K) where
  abbrev Follows : Type 0
  Follows = Follower handle true

  -- The program has met the end of the file that the path names.
  pub record AtEnd (s : Follows) : Type 0 where
    pub phase : (s.phase ≡ reading) ⊎ (s.phase ≡ checking)
    pub eof : s.eof ≡ true
    pub file : LogFile
    pub path : s.path ≡ some file
    pub inode : get_inode file.inode ≡ s.last_inode

  -- The program's steps (`none`) and what a writer appends between them.
  pub play : List (Option Name) → Follows → Follows
  play [] s = s
  play (none ∷ events) s = play events (main_step handle true s)
  play (some bs ∷ events) s = play events (append handle true bs s)

  -- What a step or an append leaves at the end of the file, and the house keeper as it was.
  record Stays (s r : Follows) : Type 0 where
    pub end : AtEnd r
    pub keeper : r.keeper ≡ s.keeper

  took-end :
      (s : Follows) (r : Name × Name × Bool)
      → s.eof ≡ true
      → took handle true s r ≡ record s { phase = checking }
  unfolding took
  took-end s (line, rest, met) e = rw e refl

  read_line-end :
      (s : Follows) → s.eof ≡ true → read_line handle true s ≡ record s { phase = checking }
  unfolding read_line
  read_line-end s e = took-end s (take_line line_room s.unread) e

  main_step-reading :
      (s : Follows) → s.phase ≡ reading → main_step handle true s ≡ read_line handle true s
  unfolding main_step
  main_step-reading s p = rw p refl

  main_step-checking :
      (s : Follows) (f : LogFile)
      → s.phase ≡ checking
      → s.eof ≡ true
      → s.path ≡ some f
      → get_inode f.inode ≡ s.last_inode
      → main_step handle true s ≡ record s { phase = reading; sbuf = f.inode }
  unfolding main_step check_log lstat
  main_step-checking s f p e there i =
      let same : (get_inode f.inode == s.last_inode) ≡ true = ground arith in
      rw (p, e, there, same) refl

  main_step-Stays : (s : Follows) → AtEnd s → Stays s (main_step handle true s)
  main_step-Stays s h = elim h.phase [
    | inl p ↦ subst (Stays s) (sym (main_step-reading s p ∙ read_line-end s h.eof)) (record {
      end = record { phase = inr refl; eof = h.eof; file = h.file; path = h.path; inode = h.inode };
      keeper = refl;
    })
    | inr p ↦ subst (Stays s) (sym (main_step-checking s h.file p h.eof h.path h.inode)) (record {
      end = record { phase = inl refl; eof = h.eof; file = h.file; path = h.path; inode = h.inode };
      keeper = refl;
    })
  ]

  append-Stays : (bs : Name) (s : Follows) → AtEnd s → Stays s (append handle true bs s)
  unfolding append append_to
  append-Stays bs s h = rw h.path (record {
    end = record {
      phase = h.phase;
      eof = h.eof;
      file = append_to bs h.file;
      path = refl;
      inode = h.inode;
    };
    keeper = refl;
  })

  -- If a stream stays at the end of file that it has met, then from there on, whatever is appended to the
  -- log, the house keeper is given no line.
  pub play_deaf :
      (events : List (Option Name)) (s : Follows) → AtEnd s → (play events s).keeper ≡ s.keeper
  unfolding play
  play_deaf [] s h = refl
  play_deaf (none ∷ events) s h =
      let n = main_step-Stays s h in play_deaf events (main_step handle true s) n.end ∙ n.keeper
  play_deaf (some bs ∷ events) s h =
      let n = append-Stays bs s h in play_deaf events (append handle true bs s) n.end ∙ n.keeper
