-- ===== src/Main/Caught.antt =====
-- The loop of src/main.c catches up with the log.
use logstats.Base.{
  ◌≡◌, refl, sym, ap, subst, ◌∙◌, append_assoc, append-nil, ℕ, zero, suc, Bool, true, false, some,
  List, [], ◌∷◌, ◌++◌, ◌==◌, ◌||◌, arith,
}
use logstats.NameTree.Tree.{Name}
use logstats.Main.{
  LogFile, get_inode, reading, checking, open_log, lstat, read_line, check_log, main_step,
  main_steps,
}
use logstats.Main.Lines.{Lines, nothing, then_line}
use logstats.Main.Place.{
  handle_all, handle_all-snoc, read_line-line, read_line-end, Place, reopening, fresh, follows,
  checks, replaced, leaves, Follows,
}
use logstats.Main.Follow.{Trace, Trace-Followed}

module _ {K : Type 0} (handle : K → Name → K) where
  -- After so many steps all the lines are handled.
  pub record Caught (k : K) (written : List Name) (s : Follows handle) : Type 0 where
    pub steps : ℕ
    pub keeper : (main_steps handle false steps s).keeper ≡ handle_all handle k written

  main_step-reading :
      (s : Follows handle) → s.phase ≡ reading → main_step handle false s ≡ read_line handle false s
  unfolding main_step
  main_step-reading s p = rw p refl

  -- What is in the open file is read to its end, with nothing else changed.
  read_all :
      (k : K) (s : Follows handle) (handled pending : List Name)
      → s.phase ≡ reading
      → s.keeper ≡ handle_all handle k handled
      → Lines pending s.unread
      → (n : ℕ) × (e : Bool) × (main_steps handle false n s
          ≡ record s { unread = []; eof = e; keeper = handle_all handle k (handled ++ pending) })
  unfolding main_steps
  read_all k s handled pending p e nothing = (0, s.eof, rw (append-nil handled, ← e) refl)
  read_all k s handled pending p e (then_line {lines = lines} {text = text} line h l) =
      let r = record s { unread = text; eof = s.eof || false; keeper = handle s.keeper line } in
      let (n, met, q) =
        read_all k r (handled ++ line ∷ []) lines p
          (ap (λ q. handle q line) e ∙ sym (handle_all-snoc handle k handled line)) l in
      (
        suc n,
        met,
        ap (main_steps handle false n)
              (main_step-reading s p ∙ read_line-line handle s line text h refl)
            ∙ (q ∙ rw (append_assoc handled (line ∷ []) lines) refl),
      )

  Caught-later :
      (k : K) (written : List Name) (n : ℕ) (s : Follows handle)
      → Caught k written (main_steps handle false n s)
      → Caught k written s
  unfolding main_steps
  Caught-later k written zero s c = c
  Caught-later k written (suc n) s c =
      let later = Caught-later k written n (main_step handle false s) c in
      record { steps = suc later.steps; keeper = later.keeper }

  module _ (k : K) (written : List Name) where
    Caught-reading :
        (s : Follows handle) (handled pending : List Name)
        → s.phase ≡ reading
        → s.keeper ≡ handle_all handle k handled
        → handled ++ (pending ++ []) ≡ written
        → Lines pending s.unread
        → Caught k written s
    Caught-reading s handled pending p e a l =
        let (n, met, q) = read_all k s handled pending p e l in
        record {
          steps = n;
          keeper =
              ap (λ (r : Follows handle). r.keeper) q
              ∙ ap (handle_all handle k) (ap (λ ls. handled ++ ls) (sym (append-nil pending)) ∙ a);
        }

    -- From the end of a file that another has replaced.
    Caught-leaving :
        (s : Follows handle) (f : LogFile) (handled newer : List Name)
        → s.phase ≡ checking
        → s.first ≡ true
        → s.eof ≡ true
        → s.path ≡ some f
        → (get_inode f.inode == s.last_inode) ≡ false
        → s.keeper ≡ handle_all handle k handled
        → handled ++ newer ≡ written
        → Lines newer f.text
        → Caught k written s
    unfolding main_step open_log check_log main_steps lstat
    Caught-leaving s f handled newer p one met there d e a m =
        let tail : Caught k written (main_step handle false s) =
          rw (p, met, there, d)
            (Caught-later k written 2 _
              (rw one (Caught-reading _ handled newer refl e (rw (append-nil newer) a) m))) in
        Caught-later k written 1 s tail

    -- From each place.
    Place-Caught :
        (s : Follows handle) (handled pending newer : List Name)
        → s.keeper ≡ handle_all handle k handled
        → handled ++ (pending ++ newer) ≡ written
        → Place handle s pending newer
        → Caught k written s
    unfolding main_step open_log check_log main_steps
    Place-Caught s handled pending newer e a (reopening l) =
        Caught-later k written 2 s
          (Caught-reading _ handled newer refl e (rw (append-nil newer) a) l)
    Place-Caught s handled pending newer e a (fresh l) =
        Caught-later k written 1 s (Caught-reading _ handled pending refl e a l)
    Place-Caught s handled pending newer e a (follows l) =
        Caught-reading s handled pending refl e a l
    Place-Caught s handled pending newer e a (checks {f = f} l) =
        let same : (get_inode f.inode == get_inode f.inode) ≡ true = ground arith in
        Caught-later k written 1 s (rw same (Caught-reading _ handled pending refl e a l))
    Place-Caught s handled pending newer e a (leaves {f = f} d i m) =
        Caught-leaving s f handled newer refl refl refl refl d e a m
    Place-Caught s handled pending newer e a (replaced {f = f} d i l m) =
        let (n, met, q) = read_all k s handled pending refl e l in
        let r : Follows handle = record s {
          unread = [];
          eof = met;
          keeper = handle_all handle k (handled ++ pending);
        } in
        let left : Caught k written (record r { phase = checking; eof = true }) =
          Caught-leaving _ f (handled ++ pending) newer refl refl refl refl d refl
            (append_assoc handled pending newer ∙ a) m in
        Caught-later k written n s (
          subst (Caught k written) (sym q) (
            Caught-later k written 1 r
              (subst (Caught k written) (sym (read_line-end handle r refl)) left)))

  -- From every state of a run in which a writer adds whole lines of at most 1023 bytes to the file that the
  -- path names and replaces it, by an empty file of another inode, only while the program reads that file (not
  -- between an end of file or fopen and the lstat behind it), and in which the stream goes on behind an end of
  -- file: the program by its own steps comes to have given the house keeper exactly the lines that were
  -- written, each once and in order.
  pub Trace-Caught :
      (k : K) (written : List Name) (s : Follows handle)
      → Trace handle k written s
      → Caught k written s
  Trace-Caught k written s t =
      let h = Trace-Followed handle k written s t in
      Place-Caught k written s h.handled h.pending h.newer h.keeper h.all h.place
