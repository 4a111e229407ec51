-- ===== src/Tests/Lines.antt =====
-- Lines of the log that src/log_topn.c handles: one with a zone, and one without, like the sample in
-- the source.
use logstats.Base.{◌≡◌, refl, none, some, List, [], ◌∷◌, arith}
use logstats.LogLine.{sp_num, fields, handle_string_log}
use logstats.LogLine.Words.{
  Words, Line, joined, both, fields-joined, handle_string_log-both, handle_string_log-none,
}
use logstats.NameTree.{last_byte}
use logstats.NameTree.Tree.{Name}
use logstats.ViewStats.{bytes}

abbrev with_zone : List Name
with_zone =
    bytes "d"
    ∷ bytes "t"
    ∷ bytes "c"
    ∷ bytes "1.2.3.4"
    ∷ bytes "p"
    ∷ bytes "v"
    ∷ bytes "in:"
    ∷ bytes "a.b."
    ∷ bytes "IN"
    ∷ bytes "A"
    ∷ bytes "NXDOMAIN"
    ∷ bytes "+"
    ∷ bytes "NS"
    ∷ bytes "NE"
    ∷ bytes "NT"
    ∷ bytes "ND"
    ∷ bytes "NC"
    ∷ (b'z' ∷ 10 ∷ [])
    ∷ []

abbrev without_zone : List Name
without_zone =
    bytes "d"
    ∷ bytes "t"
    ∷ bytes "c"
    ∷ bytes "1.2.3.4"
    ∷ bytes "p"
    ∷ bytes "v"
    ∷ bytes "in:"
    ∷ bytes "a.b."
    ∷ bytes "IN"
    ∷ bytes "A"
    ∷ bytes "NXDOMAIN"
    ∷ bytes "+"
    ∷ bytes "NS"
    ∷ bytes "NE"
    ∷ bytes "NT"
    ∷ bytes "ND"
    ∷ (b'N' ∷ b'C' ∷ 10 ∷ [])
    ∷ []

with_zone-Words : Words with_zone
with_zone-Words = (
  tt,
  (refl, tt),
  (
    tt,
    (refl, tt),
    (
      tt,
      (refl, tt),
      (
        tt,
        (refl, (refl, (refl, (refl, (refl, (refl, (refl, tt))))))),
        (
          tt,
          (refl, tt),
          (
            tt,
            (refl, tt),
            (
              tt,
              (refl, (refl, (refl, tt))),
              (
                tt,
                (refl, (refl, (refl, (refl, tt)))),
                (
                  tt,
                  (refl, (refl, tt)),
                  (
                    tt,
                    (refl, tt),
                    (
                      tt,
                      (refl, (refl, (refl, (refl, (refl, (refl, (refl, (refl, tt)))))))),
                      (
                        tt,
                        (refl, tt),
                        (
                          tt,
                          (refl, (refl, tt)),
                          (
                            tt,
                            (refl, (refl, tt)),
                            (
                              tt,
                              (refl, (refl, tt)),
                              (
                                tt,
                                (refl, (refl, tt)),
                                (tt, (refl, (refl, tt)), (tt, (refl, (refl, tt)), tt)),
                              ),
                            ),
                          ),
                        ),
                      ),
                    ),
                  ),
                ),
              ),
            ),
          ),
        ),
      ),
    ),
  ),
)

without_zone-Words : Words without_zone
without_zone-Words = (
  tt,
  (refl, tt),
  (
    tt,
    (refl, tt),
    (
      tt,
      (refl, tt),
      (
        tt,
        (refl, (refl, (refl, (refl, (refl, (refl, (refl, tt))))))),
        (
          tt,
          (refl, tt),
          (
            tt,
            (refl, tt),
            (
              tt,
              (refl, (refl, (refl, tt))),
              (
                tt,
                (refl, (refl, (refl, (refl, tt)))),
                (
                  tt,
                  (refl, (refl, tt)),
                  (
                    tt,
                    (refl, tt),
                    (
                      tt,
                      (refl, (refl, (refl, (refl, (refl, (refl, (refl, (refl, tt)))))))),
                      (
                        tt,
                        (refl, tt),
                        (
                          tt,
                          (refl, (refl, tt)),
                          (
                            tt,
                            (refl, (refl, tt)),
                            (
                              tt,
                              (refl, (refl, tt)),
                              (tt, (refl, (refl, tt)), (tt, (refl, (refl, (refl, tt))), tt)),
                            ),
                          ),
                        ),
                      ),
                    ),
                  ),
                ),
              ),
            ),
          ),
        ),
      ),
    ),
  ),
)

with_zone-Line :
    Line with_zone (bytes "in") (bytes "a.b.") (bytes "1.2.3.4") (bytes "A") (bytes "NXDOMAIN")
unfolding last_byte
with_zone-Line = record {
  words = with_zone-Words;
  few = omega arith;
  ended = refl;
  short = omega arith;
  view_there = refl;
  domain_there = refl;
  ip_there = refl;
  rtype_there = refl;
  rcode_there = refl;
}

without_zone-Line :
    Line without_zone (bytes "in") (bytes "a.b.") (bytes "1.2.3.4") (bytes "A") (bytes "NXDOMAIN")
unfolding last_byte
without_zone-Line = record {
  words = without_zone-Words;
  few = omega arith;
  ended = refl;
  short = omega arith;
  view_there = refl;
  domain_there = refl;
  ip_there = refl;
  rtype_there = refl;
  rcode_there = refl;
}

fields-joined_example : fields sp_num (joined with_zone) ≡ with_zone
fields-joined_example = fields-joined sp_num with_zone (omega arith) with_zone-Words

handle_string_log-both_example :
    handle_string_log (joined with_zone)
    ≡ some (
        both
          (bytes "in")
          (bytes "z")
          (bytes "a.b.")
          (bytes "1.2.3.4")
          (bytes "A")
          (bytes "NXDOMAIN"))
handle_string_log-both_example =
    handle_string_log-both with_zone (bytes "in") (bytes "a.b.") (bytes "1.2.3.4") (bytes "A")
      (bytes "NXDOMAIN") with_zone-Line (bytes "z") 10 refl (omega arith) (omega arith)

handle_string_log-none_example : handle_string_log (joined without_zone) ≡ none
handle_string_log-none_example =
    handle_string_log-none without_zone (bytes "in") (bytes "a.b.") (bytes "1.2.3.4") (bytes "A")
      (bytes "NXDOMAIN") without_zone-Line refl
