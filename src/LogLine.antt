-- ===== src/LogLine.antt =====
-- handle_string_log of src/log_topn.c, up to its calls of log_handle: the words of a line of the log,
-- and the sightings that the line stands for. `none` as an outcome means that the process stops, at a
-- NULL pointer or a write behind the end of an array.
pub mod Words
use logstats.Base.{
  ◌>>=◌, ℕ, zero, suc, ◌+◌, Bool, Option, none, some, List, [], ◌∷◌, ◌++◌, ltb, leb, ◌==◌,
  if◌then◌else◌, get_elem?, length,
}
use logstats.NameTree.{last_byte}
use logstats.NameTree.Tree.{Name}

-- RECORD_LEN and SP_NUM, and the size of the two keywords.
abbrev pub record_len : ℕ
record_len = 1024

abbrev pub sp_num : ℕ
sp_num = 20

abbrev pub keyword_len : ℕ
keyword_len = 256

-- CIP_P, VIEW_P, DOMAIN_P, RTYPE_P, RCODE_P and ZONE_P
abbrev pub cip_p : ℕ
cip_p = 3

abbrev pub view_p : ℕ
view_p = 6

abbrev pub domain_p : ℕ
domain_p = 7

abbrev pub rtype_p : ℕ
rtype_p = 9

abbrev pub rcode_p : ℕ
rcode_p = 10

abbrev pub zone_p : ℕ
zone_p = 17

-- The string from its first byte that is not a space.
pub skip_spaces : Name → Name
skip_spaces [] = []
skip_spaces (c ∷ s) = let rest = skip_spaces s in if c == b' ' then rest else c ∷ s

-- The string up to its first space, and what follows that space.
pub token : Name → Name × Name
token [] = ([], [])
token (c ∷ s) = let rest = token s in if c == b' ' then ([], s) else (c ∷ rest.0, rest.1)

-- strtok_r with the separator " ": the next word and the string behind it, or NULL.
pub strtok_r : Name → Option (Name × Name)
unfolding skip_spaces token
strtok_r s = elim (skip_spaces s) [ [] ↦ none | c ∷ t ↦ some (token (c ∷ t)) ]

-- The loop that fills `ptr`, with so many rounds to go.
pub fields : ℕ → Name → List Name
unfolding strtok_r
fields zero s = []
fields (suc n) s = elim (strtok_r s) [ none ↦ [] | some (word, rest) ↦ word ∷ fields n rest ]

-- A string without its last byte; a word has one.
pub chop : Name → Name
chop [] = []
chop (c ∷ []) = []
chop (c ∷ d ∷ s) = c ∷ chop (d ∷ s)

-- The arguments of a call of log_handle.
pub record Sighting : Type 0 where
  pub view : Name
  pub domain : Name
  pub ip : Name
  pub rtype : Name
  pub rcode : Name

-- `sprintf(keyword, "%s$%s", view, zone)` into 256 bytes.
pub keyword : Name → Name → Option Name
keyword view zone =
    let text = view ++ b'$' ∷ zone in if ltb (length text) keyword_len then some text else none

-- The part of the line's handling where the four words that are tested are not NULL.
pub sightings_of : List Name → (view ip rtype rcode : Name) → Option (List Sighting)
unfolding keyword
sightings_of ptr view ip rtype rcode =
    let counted : Option (List Sighting) = do
      zone ← get_elem? ptr zone_p
      one ← keyword (chop view) (chop zone)
      total ← keyword (b'*' ∷ []) (chop zone)
      domain ← get_elem? ptr domain_p
      some (
          (record { view = one; domain = domain; ip = ip; rtype = rtype; rcode = rcode })
          ∷ (record { view = total; domain = domain; ip = ip; rtype = rtype; rcode = rcode })
          ∷ [])
    in if last_byte 0 view == b':' then counted else some []

-- The test of the four words.
pub tested : List Name → (view ip rcode rtype : Option Name) → Option (List Sighting)
tested ptr none ip rcode rtype = some []
tested ptr (some view) none rcode rtype = some []
tested ptr (some view) (some ip) none rtype = some []
tested ptr (some view) (some ip) (some rcode) none = some []
tested ptr (some view) (some ip) (some rcode) (some rtype) = sightings_of ptr view ip rtype rcode

pub fields_sightings : List Name → Option (List Sighting)
unfolding tested
fields_sightings ptr =
    tested ptr (get_elem? ptr view_p) (get_elem? ptr cip_p) (get_elem? ptr rcode_p)
      (get_elem? ptr rtype_p)

-- The calls of log_handle, in order.
pub handle_string_log : Name → Option (List Sighting)
handle_string_log line =
    if ltb (length line) record_len then fields_sightings (fields sp_num line) else none
