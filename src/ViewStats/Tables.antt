-- ===== src/ViewStats/Tables.antt =====
-- The tables of names of src/log_view_stats.c and the counters that they select.
use logstats.Base.{
  ℕ, zero, suc, ◌+◌, ◌%◌, ◌^◌, ◌<◌, ◌≡◌, ◌≢◌, ap, ◌↔◌, refl, ◌∙◌, ◌⊎◌, inl, inr, true, false,
  Option, none, some, List, [], ◌∷◌, pos, ◌==◌, if◌then◌else◌, update, arith, Bool-cases, get_elem?,
  get_elem?-lt,
}
use logstats.NameTree.Tree.{Name}
use logstats.ViewStats.{
  rcode_names, rtype_names, rcode_max_num, rtype_max_num, same_name, table_index, rtype_index,
  rcode_index, Counters, view_stats_rcode_increment, view_stats_rtype_increment,
}

pub same_name_self : (a : Name) → same_name a a ≡ true
unfolding same_name
same_name_self [] = refl
same_name_self (c ∷ a) = ground (arith, same_name_self a)

pub same_name_eq : (a b : Name) → same_name a b ≡ true → a ≡ b
unfolding same_name
same_name_eq [] [] h = refl
same_name_eq [] (d ∷ b) h = cc
same_name_eq (c ∷ a) [] h = cc
same_name_eq (c ∷ a) (d ∷ b) h = ground (arith, same_name_eq a b)

-- A name that no entry of the table is.
abbrev pub Unknown : Name → List (Option Name) → Type 0
Unknown name [] = Unit {0}
Unknown name (none ∷ table) = Unknown name table
Unknown name (some e ∷ table) = (same_name name e ≡ false) × Unknown name table

-- Every entry of the table is a name.
abbrev pub Full : List (Option Name) → Type 0
Full [] = Unit {0}
Full (none ∷ table) = ⊥
Full (some e ∷ table) = Full table

-- A table without NULL gives the position of the name, or else the default for an unknown name.
table_index-Full :
    (table : List (Option Name)) (i default : ℕ) (name : Name)
    → Full table
    → ((j : ℕ) × (table_index table i default name ≡ some (i + j))
        × (get_elem? table j ≡ some (some name)))
      ⊎ ((table_index table i default name ≡ some default) × Unknown name table)
unfolding table_index
table_index-Full [] i default name f = inr (refl, tt)
table_index-Full (none ∷ table) i default name f = absurd f
table_index-Full (some e ∷ table) i default name f = elim (Bool-cases (same_name name e)) [
  | inl here ↦ inl (0, rw here (ground arith), ground (arith, same_name_eq name e here))
  | inr other ↦ elim (table_index-Full table (i + 1) default name f) [
    | inl (j, found, entry) ↦ inl (suc j, rw (other, found) (ground arith), entry)
    | inr (none_found, unknown) ↦ inr (rw (other, none_found), (other, unknown))
  ]
]

-- A table that ends in NULL stops the process on an unknown name.
table_index-null :
    (table : List (Option Name)) (i default : ℕ) (name : Name) (k : ℕ)
    → get_elem? table k ≡ some none
    → Unknown name table
    → table_index table i default name ≡ none
unfolding table_index
table_index-null [] i default name k e u = cc
table_index-null (none ∷ table) i default name k e u = refl
table_index-null (some s ∷ table) i default name zero e u = absurd (cc)
table_index-null (some s ∷ table) i default name (suc k) e u =
    rw (u.0, table_index-null table (i + 1) default name k e u.1)

-- rcode_index returns an index of the table for every name: that of the name, or 6 for a name that
-- the table does not have.
pub rcode_index_lem :
    (name : Name)
    → ((j : ℕ) × (rcode_index name ≡ some j)
        × (j < rcode_max_num)
        × (get_elem? rcode_names j ≡ some (some name)))
      ⊎ ((rcode_index name ≡ some 6) × Unknown name rcode_names)
unfolding rcode_index
rcode_index_lem name = elim (table_index-Full rcode_names 0 6 name tt) [
  | inl (j, found, entry) ↦ inl (j, found ∙ ground arith, get_elem?-lt rcode_names j entry, entry)
  | inr unknown ↦ inr unknown
]

-- rtype_index follows a NULL pointer on every name that is not one of the eleven entries.
pub rtype_index-none : (name : Name) → Unknown name rtype_names → rtype_index name ≡ none
unfolding rtype_index
rtype_index-none name u = table_index-null rtype_names 0 11 name 11 refl u

-- view_stats_rcode_increment at an index below 7 adds 1 modulo 2^32 to the counter of that index and
-- to no other.
pub view_stats_rcode_increment-counts :
    (vs : Counters) (i : ℕ)
    → i < rcode_max_num
    → (r : Counters) × (view_stats_rcode_increment vs (pos i) ≡ some r)
      × ((j : ℕ) → r.rcode j ≡ (if i == j then (vs.rcode j + 1) % 2 ^ 32 else vs.rcode j))
      × (r.rtype ≡ vs.rtype)
unfolding view_stats_rcode_increment
view_stats_rcode_increment-counts vs i h = (
  record vs { rcode = update vs.rcode i ((vs.rcode i + 1) % 2 ^ 32) },
  ground arith,
  λ j. ground arith,
  refl,
)

-- view_stats_rcode_increment writes behind the end of the array at the index 7 and at no other.
pub view_stats_rcode_increment-none_iff :
    (vs : Counters) (i : ℕ) → view_stats_rcode_increment vs (pos i) ≡ none ↔ i ≡ rcode_max_num
unfolding view_stats_rcode_increment
view_stats_rcode_increment-none_iff vs i = (λ e. ground arith, λ e. ground arith)

-- view_stats_rtype_increment at an index below 12 adds 1 modulo 2^32 to the counter of that index
-- and to no other.
pub view_stats_rtype_increment-counts :
    (vs : Counters) (i : ℕ)
    → i < rtype_max_num
    → (r : Counters) × (view_stats_rtype_increment vs (pos i) ≡ some r)
      × ((j : ℕ) → r.rtype j ≡ (if i == j then (vs.rtype j + 1) % 2 ^ 32 else vs.rtype j))
      × (r.rcode ≡ vs.rcode)
unfolding view_stats_rtype_increment
view_stats_rtype_increment-counts vs i h = (
  record vs { rtype = update vs.rtype i ((vs.rtype i + 1) % 2 ^ 32) },
  ground arith,
  λ j. ground arith,
  refl,
)

-- view_stats_rtype_increment writes behind the end of the array at the index 12 and at no other.
pub view_stats_rtype_increment-none_iff :
    (vs : Counters) (i : ℕ) → view_stats_rtype_increment vs (pos i) ≡ none ↔ i ≡ rtype_max_num
unfolding view_stats_rtype_increment
view_stats_rtype_increment-none_iff vs i = (λ e. ground arith, λ e. ground arith)

-- Two names are the same or not.
pub names_decide : (j k : Name) → (j ≡ k) ⊎ (j ≢ k)
names_decide j k = elim (Bool-cases (same_name j k)) [
  | inl e ↦ inl (same_name_eq j k e)
  | inr d ↦ inr (λ e. absurd (cc (d, ap (λ i. same_name j i) e, same_name_self j)))
]
