-- ===== src/LogLine/Words.antt =====
-- What a line of words makes of the handler of src/log_topn.c.
use logstats.Base.{
  ℕ, zero, suc, ◌≤◌, ◌<◌, ◌≡◌, refl, ap, ◌∙◌, true, false, none, some, List, [], ◌∷◌, ◌++◌, ltb,
  ◌==◌, get_elem?, length, arith,
}
use logstats.NameTree.{last_byte}
use logstats.NameTree.Tree.{Name}
use logstats.LogLine.{
  record_len, sp_num, keyword_len, cip_p, view_p, domain_p, rtype_p, rcode_p, zone_p, skip_spaces,
  token, strtok_r, fields, chop, Sighting, keyword, sightings_of, tested, fields_sightings,
  handle_string_log,
}

-- No byte is a space.
abbrev pub Solid : Name → Type 0
Solid [] = Unit {0}
Solid (c ∷ s) = ((c == b' ') ≡ false) × Solid s

abbrev pub NonEmpty : Name → Type 0
NonEmpty [] = ⊥
NonEmpty (c ∷ s) = Unit {0}

-- Words: solid strings, none of them empty.
abbrev pub Words : List Name → Type 0
Words [] = Unit {0}
Words (w ∷ ws) = NonEmpty w × Solid w × Words ws

-- The line of these words, with a space between two of them. The newline that ends a line of the log is
-- the last byte of its last word.
abbrev pub joined : List Name → Name
joined [] = []
joined (w ∷ []) = w
joined (w ∷ v ∷ ws) = w ++ b' ' ∷ joined (v ∷ ws)

token-joined : (w s : Name) → Solid w → token (w ++ b' ' ∷ s) ≡ (w, s)
unfolding token
token-joined [] s h = refl
token-joined (c ∷ w) s h = rw (h.0, token-joined w s h.1) refl

skip_spaces-word : (c : ℕ) (s : Name) → (c == b' ') ≡ false → skip_spaces (c ∷ s) ≡ c ∷ s
unfolding skip_spaces
skip_spaces-word c s h = rw h refl

pub strtok_r-joined : (w s : Name) → NonEmpty w → Solid w → strtok_r (w ++ b' ' ∷ s) ≡ some (w, s)
unfolding strtok_r
strtok_r-joined [] s n h = absurd n
strtok_r-joined (c ∷ w) s n h =
    rw (strtok_r, skip_spaces-word c (w ++ b' ' ∷ s) h.0)
      (ap (λ r. some r) (token-joined (c ∷ w) s h))

token-word : (w : Name) → Solid w → token w ≡ (w, [])
unfolding token
token-word [] h = refl
token-word (c ∷ w) h = rw (h.0, token-word w h.1) refl

-- The last word of a line.
pub strtok_r-word : (w : Name) → NonEmpty w → Solid w → strtok_r w ≡ some (w, [])
unfolding strtok_r
strtok_r-word [] n h = absurd n
strtok_r-word (c ∷ w) n h =
    rw (strtok_r, skip_spaces-word c w h.0) (ap (λ r. some r) (token-word (c ∷ w) h))

pub fields-word :
    (n : ℕ) (s w rest : Name) → strtok_r s ≡ some (w, rest) → fields (suc n) s ≡ w ∷ fields n rest
unfolding fields
fields-word n s w rest e = rw (fields, e) refl

fields_end : (n : ℕ) → fields n [] ≡ []
unfolding fields strtok_r skip_spaces
fields_end zero = refl
fields_end (suc n) = refl

-- Splitting a line of at most `n` words gives the words back.
pub fields-joined : (n : ℕ) (ws : List Name) → length ws ≤ n → Words ws → fields n (joined ws) ≡ ws
unfolding fields strtok_r skip_spaces
fields-joined zero [] le h = refl
fields-joined zero (w ∷ ws) le h = elim le [ ]
fields-joined (suc n) [] le h = refl
fields-joined (suc n) (w ∷ []) le h =
    fields-word n w w [] (strtok_r-word w h.0 h.1) ∙ ap (λ us. w ∷ us) (fields_end n)
fields-joined (suc n) (w ∷ v ∷ ws) le h =
    fields-word n (joined (w ∷ v ∷ ws)) w (joined (v ∷ ws))
      (strtok_r-joined w (joined (v ∷ ws)) h.0 h.1)
    ∙ ap (λ us. w ∷ us) (fields-joined n (v ∷ ws) (omega arith) h.2)

pub chop-append : (s : Name) (c : ℕ) → chop (s ++ c ∷ []) ≡ s
unfolding chop
chop-append [] c = refl
chop-append (d ∷ []) c = refl
chop-append (d ∷ e ∷ s) c = ap (λ t. d ∷ t) (chop-append (e ∷ s) c)

last_byte-append : (d : ℕ) (s : Name) (c : ℕ) → last_byte d (s ++ c ∷ []) ≡ c
unfolding last_byte
last_byte-append d [] c = refl
last_byte-append d (e ∷ s) c = last_byte-append e s c

-- The two sightings of a line: in the view of its zone, and in that of all views of the zone.
abbrev pub both : (view zone domain ip rtype rcode : Name) → List Sighting
both view zone domain ip rtype rcode =
    (record { view = view ++ b'$' ∷ zone; domain = domain; ip = ip; rtype = rtype; rcode = rcode })
    ∷ (record { view = b'*' ∷ b'$' ∷ zone; domain = domain; ip = ip; rtype = rtype; rcode = rcode })
    ∷ []

-- A line of at most 20 words and 1023 bytes, as fgets delivers it: the last word ends in the newline.
pub record Line (ws : List Name) (view domain ip rtype rcode : Name) : Type 0 where
  pub words : Words ws
  pub few : length ws ≤ sp_num
  pub ended : last_byte 0 (joined ws) ≡ 10
  pub short : length (joined ws) < record_len
  pub view_there : get_elem? ws view_p ≡ some (view ++ b':' ∷ [])
  pub domain_there : get_elem? ws domain_p ≡ some domain
  pub ip_there : get_elem? ws cip_p ≡ some ip
  pub rtype_there : get_elem? ws rtype_p ≡ some rtype
  pub rcode_there : get_elem? ws rcode_p ≡ some rcode

module _ (ws : List Name) (view domain ip rtype rcode : Name)
    (l : Line ws view domain ip rtype rcode) where
  fields_handled : fields_sightings ws ≡ sightings_of ws (view ++ b':' ∷ []) ip rtype rcode
  unfolding fields_sightings tested
  fields_handled = rw (l.view_there, l.ip_there, l.rcode_there, l.rtype_there) refl

  handle_words : handle_string_log (joined ws) ≡ sightings_of ws (view ++ b':' ∷ []) ip rtype rcode
  unfolding handle_string_log
  handle_words =
      let fits : ltb (length (joined ws)) record_len ≡ true = ground (arith, l.short) in
      rw (fits, fields-joined sp_num ws l.few l.words) fields_handled

  -- A line of at most 20 words with one space between two of them, and of at most 1023 bytes with the newline
  -- at its end, whose 18th word is a zone and one more byte (which may be that newline) and whose view and
  -- zone fit into keywords of 255 bytes, is logged twice: under its view and zone, and under `*` and the
  -- zone, each with the domain, the address, the type and the code that the line names.
  pub handle_string_log-both :
      (zone : Name) (c : ℕ)
      → get_elem? ws zone_p ≡ some (zone ++ c ∷ [])
      → length (view ++ b'$' ∷ zone) < keyword_len
      → length (b'*' ∷ b'$' ∷ zone) < keyword_len
      → handle_string_log (joined ws) ≡ some (both view zone domain ip rtype rcode)
  unfolding sightings_of keyword
  handle_string_log-both zone c there fits_one fits_total =
      let colon : (last_byte 0 (view ++ b':' ∷ []) == b':') ≡ true =
        rw (last_byte-append 0 view b':') refl in
      let one : ltb (length (view ++ b'$' ∷ zone)) keyword_len ≡ true = ground arith in
      let total : ltb (length (b'*' ∷ b'$' ∷ zone)) keyword_len ≡ true = ground arith in
      handle_words
      ∙ rw (colon, there, chop-append view b':', chop-append zone c, one, total, l.domain_there)
          refl

  -- Such a line without an 18th word, the zone, whose first words are those of the log, stops the process at
  -- a NULL pointer.
  pub handle_string_log-none : get_elem? ws zone_p ≡ none → handle_string_log (joined ws) ≡ none
  unfolding sightings_of keyword
  handle_string_log-none missing =
      let colon : (last_byte 0 (view ++ b':' ∷ []) == b':') ≡ true =
        rw (last_byte-append 0 view b':') refl in
      handle_words ∙ rw (colon, missing) refl
