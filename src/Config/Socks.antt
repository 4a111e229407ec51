-- ===== src/Config/Socks.antt =====
-- The sockets of the configuration of src/log_utils.c, printed and read again.
use logstats.Base.{
  ℕ, zero, suc, ◌+◌, ◌≤◌, ◌≡◌, refl, sym, ap, ◌∙◌, some, List, [], ◌∷◌, ◌++◌, ◌==◌, false,
  length-append, arith, length, append_assoc, append-nil,
}
use logstats.LogLine.{fields}
use logstats.LogLine.Words.{
  Solid, Words, fields-word, fields-joined, strtok_r-word, strtok_r-joined,
}
use logstats.NameTree.Tree.{Name}
use logstats.Config.{
  strip_end, strip_front, strip, socks_text, add_socks, redis_instance, conf_line_len,
}
use logstats.Config.Strip.{strip_end-append, strip_end-cons, strip_end-solid, strip_end_twice}

-- Words with one space between any two of them.
abbrev pub spaced : List Name → Name
spaced [] = []
spaced (w ∷ []) = w
spaced (w ∷ v ∷ ws) = w ++ b' ' ∷ spaced (v ∷ ws)

-- The first byte of some words.
starts :
    (w : Name) (ws : List Name)
    → Words (w ∷ ws)
    → (d : ℕ) × (t : Name) × (spaced (w ∷ ws) ≡ d ∷ t) × ((d == b' ') ≡ false)
starts [] ws h = absurd (h.0)
starts (c ∷ w) [] h = (c, w, refl, h.1.0)
starts (c ∷ w) (v ∷ ws) h = (c, w ++ b' ' ∷ spaced (v ∷ ws), refl, h.1.0)

strip_end-word : (w : Name) → Solid w → strip_end (w ++ b' ' ∷ []) ≡ w
unfolding strip_end
strip_end-word [] h = refl
strip_end-word (c ∷ w) h =
    strip_end-solid c (w ++ b' ' ∷ []) h.0 ∙ ap (λ t. c ∷ t) (strip_end-word w h.1)

strip_end-socks : (ws : List Name) → Words ws → strip_end (socks_text ws) ≡ spaced ws
unfolding socks_text strip_end
strip_end-socks [] h = refl
strip_end-socks (w ∷ []) h = strip_end-word w h.1
strip_end-socks (w ∷ v ∷ ws) h =
    let (d, t, first, solid) = starts v ws h.2 in
    strip_end-append w (b' ' ∷ socks_text (v ∷ ws)) (d ∷ t) b' '
      (strip_end-cons b' ' d (socks_text (v ∷ ws)) t (strip_end-socks (v ∷ ws) h.2 ∙ first))
    ∙ ap (λ r. w ++ b' ' ∷ r) (sym first)

strip-socks : (ws : List Name) → Words ws → strip (strip_end (b' ' ∷ socks_text ws)) ≡ spaced ws
unfolding strip strip_end strip_front socks_text
strip-socks [] h = refl
strip-socks (w ∷ ws) h =
    let (d, t, first, solid) = starts w ws h in
    let s = socks_text (w ∷ ws) in
    let end : strip_end s ≡ d ∷ t = strip_end-socks (w ∷ ws) h ∙ first in
    let again : strip_end (d ∷ t) ≡ d ∷ t = ap strip_end (sym end) ∙ strip_end_twice s ∙ end in
    let front : strip_front (b' ' ∷ d ∷ t) ≡ d ∷ t = rw solid refl in
    ap strip (strip_end-cons b' ' d s t end)
    ∙ ap strip_front (strip_end-cons b' ' d (d ∷ t) t again)
    ∙ front
    ∙ sym first

fields-spaced : (n : ℕ) (ws : List Name) → length ws ≤ n → Words ws → fields n (spaced ws) ≡ ws
fields-spaced n [] le h = fields-joined n [] le h
fields-spaced zero (w ∷ ws) le h = elim le [ ]
fields-spaced (suc n) (w ∷ []) le h =
    fields-word n w w [] (strtok_r-word w h.0 h.1)
    ∙ ap (λ us. w ∷ us) (fields-joined n [] (omega arith) h.2)
fields-spaced (suc n) (w ∷ v ∷ ws) le h =
    fields-word n (w ++ b' ' ∷ spaced (v ∷ ws)) w (spaced (v ∷ ws))
      (strtok_r-joined w (spaced (v ∷ ws)) h.0 h.1)
    ∙ ap (λ us. w ∷ us) (fields-spaced n (v ∷ ws) (omega arith) h.2)

-- Entered into the array behind those that are there.
add_socks-all :
    (socks more : List Name)
    → length socks + length more ≤ redis_instance
    → add_socks socks more ≡ some (socks ++ more)
unfolding add_socks
add_socks-all socks [] le = ap (λ t. some t) (sym (append-nil socks))
add_socks-all socks (w ∷ more) le =
    let rest =
      add_socks-all (socks ++ w ∷ []) more (omega (arith, length-append socks (w ∷ [])))
      ∙ ap (λ t. some t) (append_assoc socks (w ∷ []) more) in
    ground (arith, rest)

-- The printed sockets are those that are read again.
pub socks_again :
    (ws : List Name)
    → Words ws
    → length ws ≤ redis_instance
    → add_socks [] (fields conf_line_len (strip (strip_end (b' ' ∷ socks_text ws)))) ≡ some ws
socks_again ws h le =
    ap (λ s. add_socks [] (fields conf_line_len s)) (strip-socks ws h)
    ∙ ap (add_socks []) (fields-spaced conf_line_len ws (omega arith) h)
    ∙ add_socks-all [] ws (omega arith)
