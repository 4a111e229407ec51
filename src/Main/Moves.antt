-- ===== src/Main/Moves.antt =====
-- What each step of the loop of src/main.c, and of a writer of its log, does to the lines to be read.
use logstats.Base.{
  ◌≡◌, ◌≢◌, refl, sym, ap, subst, ◌∙◌, append_assoc, append-nil, true, false, List, [], ◌∷◌, ◌++◌,
  ◌==◌, arith,
}
use logstats.NameTree.Tree.{Name}
use logstats.Main.{
  LogFile, get_inode, reading, open_log, lstat, check_log, main_step, append, append_to, rotate,
}
use logstats.Main.Lines.{IsLine, Lines, nothing, then_line, Lines-snoc}
use logstats.Main.Place.{
  handle_all, handle_all-snoc, Follows, Place, reopening, fresh, follows, checks, replaced, leaves,
  Followed, read_line-line, read_line-end,
}

module _ {K : Type 0} (handle : K → Name → K) where
  one_more :
      (handled : List Name) (line : Name) (rest written : List Name)
      → handled ++ (line ∷ rest) ≡ written
      → (handled ++ line ∷ []) ++ rest ≡ written
  one_more handled line rest written e = append_assoc handled (line ∷ []) rest ∙ e

  more_newer :
      (handled pending newer : List Name) (line : Name) (written : List Name)
      → handled ++ (pending ++ newer) ≡ written
      → handled ++ (pending ++ (newer ++ line ∷ [])) ≡ written ++ line ∷ []
  more_newer handled pending newer line written e =
      ap (λ rest. handled ++ rest) (sym (append_assoc pending newer (line ∷ [])))
      ∙ (sym (append_assoc handled (pending ++ newer) (line ∷ [])) ∙ ap (λ l. l ++ line ∷ []) e)

  more_pending :
      (handled pending : List Name) (line : Name) (written : List Name)
      → handled ++ (pending ++ []) ≡ written
      → handled ++ ((pending ++ line ∷ []) ++ []) ≡ written ++ line ∷ []
  more_pending handled pending line written e =
      ap (λ rest. handled ++ rest) (append-nil (pending ++ line ∷ []))
      ∙ more_newer handled pending [] line written e

  module _ (k : K) (written : List Name) where
    pub main_step-Place :
        (s : Follows handle) (handled pending newer : List Name)
        → s.keeper ≡ handle_all handle k handled
        → handled ++ (pending ++ newer) ≡ written
        → Place handle s pending newer
        → Followed handle k written (main_step handle false s)
    unfolding main_step open_log lstat check_log
    main_step-Place s handled pending newer e a (reopening l) = record {
      handled = handled;
      pending = newer;
      newer = [];
      keeper = e;
      all = rw (append-nil newer) a;
      place = fresh l;
    }
    main_step-Place s handled pending newer e a (fresh l) = record {
      handled = handled;
      pending = pending;
      newer = [];
      keeper = e;
      all = a;
      place = follows l;
    }
    main_step-Place s handled pending newer e a (follows nothing) =
        subst (Followed handle k written) (sym (read_line-end handle s refl)) (record {
          handled = handled;
          pending = [];
          newer = [];
          keeper = e;
          all = a;
          place = checks nothing;
        })
    main_step-Place s handled pending newer e a
          (follows (then_line {lines = lines} {text = text} line h l)) =
        subst (Followed handle k written) (sym (read_line-line handle s line text h refl)) (record {
          handled = handled ++ line ∷ [];
          pending = lines;
          newer = [];
          keeper = ap (λ q. handle q line) e ∙ sym (handle_all-snoc handle k handled line);
          all = one_more handled line (lines ++ []) written a;
          place = follows l;
        })
    main_step-Place s handled pending newer e a (checks {f = f} l) =
        let same : (get_inode f.inode == get_inode f.inode) ≡ true = ground arith in
        rw same (record {
          handled = handled;
          pending = pending;
          newer = [];
          keeper = e;
          all = a;
          place = follows l;
        })
    main_step-Place s handled pending newer e a (replaced d i nothing m) =
        subst (Followed handle k written) (sym (read_line-end handle s refl)) (record {
          handled = handled;
          pending = [];
          newer = newer;
          keeper = e;
          all = a;
          place = leaves d i m;
        })
    main_step-Place s handled pending newer e a
          (replaced d i (then_line {lines = lines} {text = text} line h l) m) =
        subst (Followed handle k written) (sym (read_line-line handle s line text h refl)) (record {
          handled = handled ++ line ∷ [];
          pending = lines;
          newer = newer;
          keeper = ap (λ q. handle q line) e ∙ sym (handle_all-snoc handle k handled line);
          all = one_more handled line (lines ++ newer) written a;
          place = replaced d i l m;
        })
    main_step-Place s handled pending newer e a (leaves d i m) = rw d (record {
      handled = handled;
      pending = [];
      newer = newer;
      keeper = e;
      all = a;
      place = reopening m;
    })

    pub append-Place :
        (s : Follows handle) (line : Name) (handled pending newer : List Name)
        → IsLine line
        → s.keeper ≡ handle_all handle k handled
        → handled ++ (pending ++ newer) ≡ written
        → Place handle s pending newer
        → Followed handle k (written ++ line ∷ []) (append handle false line s)
    unfolding append append_to
    append-Place s line handled pending newer h e a (reopening l) = record {
      handled = handled;
      pending = [];
      newer = newer ++ line ∷ [];
      keeper = e;
      all = more_newer handled [] newer line written a;
      place = reopening (Lines-snoc line l h);
    }
    append-Place s line handled pending newer h e a (fresh {f = f} l) =
        let same : (f.inode == f.inode) ≡ true = ground arith in
        rw same (record {
          handled = handled;
          pending = pending ++ line ∷ [];
          newer = [];
          keeper = e;
          all = more_pending handled pending line written a;
          place = fresh (Lines-snoc line l h);
        })
    append-Place s line handled pending newer h e a (follows {f = f} l) =
        let same : (f.inode == f.inode) ≡ true = ground arith in
        rw same (record {
          handled = handled;
          pending = pending ++ line ∷ [];
          newer = [];
          keeper = e;
          all = more_pending handled pending line written a;
          place = follows (Lines-snoc line l h);
        })
    append-Place s line handled pending newer h e a (checks {f = f} l) =
        let same : (f.inode == f.inode) ≡ true = ground arith in
        rw same (record {
          handled = handled;
          pending = pending ++ line ∷ [];
          newer = [];
          keeper = e;
          all = more_pending handled pending line written a;
          place = checks (Lines-snoc line l h);
        })
    append-Place s line handled pending newer h e a (replaced d i l m) = rw i (record {
      handled = handled;
      pending = pending;
      newer = newer ++ line ∷ [];
      keeper = e;
      all = more_newer handled pending newer line written a;
      place = replaced d i l (Lines-snoc line m h);
    })
    append-Place s line handled pending newer h e a (leaves d i m) = rw i (record {
      handled = handled;
      pending = [];
      newer = newer ++ line ∷ [];
      keeper = e;
      all = more_newer handled [] newer line written a;
      place = leaves d i (Lines-snoc line m h);
    })

    -- Only where the program reads the file that the path names.
    pub rotate-Place :
        (s : Follows handle) (f : LogFile) (handled pending newer : List Name)
        → s.phase ≡ reading
        → get_inode (lstat handle false s) ≡ s.last_inode
        → get_inode f.inode ≢ s.last_inode
        → f.text ≡ []
        → s.keeper ≡ handle_all handle k handled
        → handled ++ (pending ++ newer) ≡ written
        → Place handle s pending newer
        → Followed handle k written (rotate handle false f s)
    unfolding rotate lstat get_inode
    rotate-Place s g handled pending newer p n d t e a (reopening l) = absurd (cc)
    rotate-Place s g handled pending newer p n d t e a (fresh l) = absurd (cc)
    rotate-Place s g handled pending newer p n d t e a (checks l) = absurd (cc)
    rotate-Place s g handled pending newer p n d t e a (leaves x i m) = absurd (cc)
    rotate-Place s g handled pending newer p n d t e a (follows {f = f} l) = record {
      handled = handled;
      pending = pending;
      newer = [];
      keeper = e;
      all = a;
      place = replaced (ground (arith, d)) (ground (arith, d)) l (subst (Lines []) (sym t) nothing);
    }
    rotate-Place s g handled pending newer p n d t e a (replaced {f = f} x i l m) =
        absurd (ground (arith, n, x))
