-- ===== src/Main.antt =====
-- src/main.c: the loop that follows the log file. The program's own calls are its steps; a writer appends
-- to the file between them and puts another file in its place. The stream goes on behind an end of file
-- that it has met, unless `sticky`, as the standard has it. A writer that goes on writing to a file that
-- has been replaced, and one that writes while fgets reads, are not modelled.
pub mod Lines
pub mod Place
pub mod Moves
pub mod Follow
pub mod Caught
pub mod Sticky
use logstats.Base.{
  ℕ, zero, suc, ◌%◌, ◌^◌, Bool, true, false, Option, none, some, List, [], ◌∷◌, ◌++◌, ◌==◌, ◌||◌,
  ◌&&◌, if◌then◌else◌,
}
use logstats.NameTree.Tree.{Name}

abbrev pub newline : ℕ
newline = 10

-- The size of strbuf less the byte behind the string.
abbrev pub line_room : ℕ
line_room = 1023

-- The file that the path names.
pub record LogFile : Type 0 where
  pub inode : ℕ
  pub text : Name

-- `(int)ptr->st_ino`, of which only the bits are compared.
unfoldable pub get_inode : ℕ → ℕ
get_inode st_ino = st_ino % 2 ^ 32

-- fgets with room for so many bytes: the bytes it takes, those it leaves, and whether it met the end.
unfoldable pub take_line : ℕ → Name → Name × Name × Bool
take_line zero s = ([], s, false)
take_line (suc n) [] = ([], [], true)
take_line (suc n) (c ∷ s) =
    let (line, rest, met) = take_line n s in
    if c == newline then (c ∷ [], s, false) else (c ∷ line, rest, met)

-- What the program does next: fopen, the lstat behind it, fgets, or the lstat at the end of the file.
pub data Phase : Type 0 where
  opening opened reading checking exited : Phase

unfoldable pub append_to : Name → LogFile → LogFile
append_to bs f = record f { text = f.text ++ bs }

module _ {K : Type 0} (handle : K → Name → K) (sticky : Bool) where
  -- `path` is the file that the path names, `inode` and `unread` are of the file that is open.
  pub record Follower : Type 0 where
    pub path : Option LogFile
    pub phase : Phase
    pub first : Bool
    pub inode : ℕ
    pub unread : Name
    pub eof : Bool
    pub sbuf : ℕ
    pub last_inode : ℕ
    pub keeper : K

  -- fopen and, the first time, fseek to the end.
  unfoldable pub open_log : Follower → Follower
  open_log s = elim s.path [
    | none ↦ record s { phase = exited }
    | some f ↦ record s {
      phase = opened;
      first = true;
      inode = f.inode;
      unread = if s.first then f.text else [];
      eof = false;
    }
  ]

  -- lstat; where it fails sbuf stays as it was.
  unfoldable pub lstat : Follower → ℕ
  lstat s = elim s.path [ none ↦ s.sbuf | some f ↦ f.inode ]

  -- What fgets took is handled, unless it is nothing.
  unfoldable pub took : Follower → Name × Name × Bool → Follower
  took s (line, rest, met) = if s.eof && sticky then record s { phase = checking } else elim line [
    | [] ↦ record s { phase = checking; eof = s.eof || met }
    | c ∷ more ↦ record s { unread = rest; eof = s.eof || met; keeper = handle s.keeper (c ∷ more) }
  ]

  unfoldable pub read_line : Follower → Follower
  read_line s = took s (take_line line_room s.unread)

  unfoldable pub check_log : Follower → Follower
  unfolding lstat
  check_log s =
      let new = record s { sbuf = lstat s } in
      if s.eof
      then if get_inode new.sbuf == s.last_inode
        then record new { phase = reading }
        else record new { phase = opening }
      else record s { phase = exited }

  unfoldable pub main_step : Follower → Follower
  unfolding open_log lstat check_log
  main_step s = elim s.phase [
    | opening ↦ open_log s
    | opened ↦ record s { phase = reading; sbuf = lstat s; last_inode = get_inode (lstat s) }
    | reading ↦ read_line s
    | checking ↦ check_log s
    | exited ↦ s
  ]

  unfoldable pub main_steps : ℕ → Follower → Follower
  unfolding main_step
  main_steps zero s = s
  main_steps (suc n) s = main_steps n (main_step s)

  -- The start of main; sbuf and last_inode hold what the memory held.
  unfoldable pub main_start : K → Option LogFile → (sbuf last_inode : ℕ) → Follower
  main_start k path sbuf last_inode = record {
    path = path;
    phase = opening;
    first = false;
    inode = 0;
    unread = [];
    eof = false;
    sbuf = sbuf;
    last_inode = last_inode;
    keeper = k;
  }

  -- A writer appends to the file that the path names; a file that was replaced gets nothing more.
  unfoldable pub append : Name → Follower → Follower
  unfolding append_to
  append bs s = elim s.path [
    | none ↦ s
    | some f ↦ record s {
      path = some (append_to bs f);
      unread = if f.inode == s.inode then s.unread ++ bs else s.unread;
    }
  ]

  -- Another file takes the place of the log, between any two steps.
  pub rotate : LogFile → Follower → Follower
  rotate f s = record s { path = some f }
