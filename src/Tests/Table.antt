-- ===== src/Tests/Table.antt =====
-- A search tree that is a list of names, each once, with their nodes.
use logstats.Base.{
  ◌≡◌, ◌≢◌, refl, sym, ap, subst, ◌∙◌, false, Bool-cases, inl, inr, Option, none, some, List, [],
  ◌∷◌, ◌++◌, if◌then◌else◌, arith,
}
use logstats.NameTree.Tree.{Name, TreeNode, SearchTree}
use logstats.ViewStats.{same_name}
use logstats.ViewStats.Tables.{same_name_eq, same_name_self}

abbrev pub Rows : Type 0
Rows = List (Name × TreeNode)

abbrev pub lookup : Rows → Name → Option TreeNode
lookup [] k = none
lookup ((j, n) ∷ xs) k = if same_name k j then some n else lookup xs k

abbrev pub Once : Rows → Type 0
Once [] = Unit {0}
Once ((k, n) ∷ xs) = (lookup xs k ≡ none) × Once xs

abbrev pub Table : Type 0
Table = (xs : Rows) × Once xs

different : (j k : Name) → j ≢ k → same_name j k ≡ false
different j k ne = elim (Bool-cases (same_name j k)) [
  | inl e ↦ absurd (ne (same_name_eq j k e))
  | inr e ↦ e
]

abbrev pub table_insert :
    (t : Table) (k : Name) (n : TreeNode) (o : Option TreeNode) → lookup t.0 k ≡ o → Option Table
table_insert t k n (some o) e = some t
table_insert t k n none e = some ((k, n) ∷ t.0, (e, t.1))

-- The rows without that of `k`.
abbrev pub drop : Rows → Name → Rows
drop [] k = []
drop ((j, n) ∷ xs) k = if same_name k j then xs else (j, n) ∷ drop xs k

drop-none : (xs : Rows) (j k : Name) → lookup xs j ≡ none → lookup (drop xs k) j ≡ none
drop-none [] j k e = refl
drop-none ((i, n) ∷ xs) j k e = ground (arith, drop-none xs j k)

pub drop-Once : (xs : Rows) (k : Name) → Once xs → Once (drop xs k)
drop-Once [] k o = tt
drop-Once ((j, n) ∷ xs) k o = elim (Bool-cases (same_name k j)) [
  | inl e ↦ rw e o.1
  | inr e ↦ rw e (drop-none xs j k o.0, drop-Once xs k o.1)
]

abbrev pub table_delete : (t : Table) → Name → Option TreeNode → Option (TreeNode × Table)
table_delete t k none = none
table_delete t k (some n) = some (n, (drop t.0 k, drop-Once t.0 k t.1))

pub drop-here : (xs : Rows) (k : Name) → Once xs → lookup (drop xs k) k ≡ none
drop-here [] k o = refl
drop-here ((j, n) ∷ xs) k o = elim (Bool-cases (same_name k j)) [
  | inl e ↦ rw e (subst (λ i. lookup xs i ≡ none) (sym (same_name_eq k j e)) o.0)
  | inr e ↦ rw (e, e) (drop-here xs k o.1)
]

pub drop-other : (xs : Rows) (k j : Name) → j ≢ k → lookup (drop xs k) j ≡ lookup xs j
drop-other [] k j ne = refl
drop-other ((i, n) ∷ xs) k j ne = elim (Bool-cases (same_name k i)) [
  | inl e ↦
      let other : same_name j i ≡ false = different j i (λ f. ne (f ∙ sym (same_name_eq k i e))) in
      rw (e, other) refl
  | inr e ↦ ground (arith, drop-other xs k j ne)
]

found-split :
    (xs : Rows) (k : Name) (n : TreeNode)
    → lookup xs k ≡ some n
    → (before after : Rows) × (xs ≡ before ++ (k, n) ∷ after) × (drop xs k ≡ before ++ after)
found-split [] k n e = absurd (cc)
found-split ((j, m) ∷ xs) k n e = elim (Bool-cases (same_name k j)) [
  | inl f ↦
      ([], xs, (let same : m ≡ n = ground arith in rw (same_name_eq k j f, same) refl), rw f refl)
  | inr f ↦
      let (before, after, whole, rest) = found-split xs k n (rw f at e) in
      ((j, m) ∷ before, after, ap (λ ys. (j, m) ∷ ys) whole, rw f (ap (λ ys. (j, m) ∷ ys) rest))
]

rows_of : Option Table → Rows
rows_of none = []
rows_of (some t) = t.0

left_of : Option (TreeNode × Table) → Rows
left_of none = []
left_of (some (n, t)) = t.0

node_of : TreeNode → Option (TreeNode × Table) → TreeNode
node_of m none = m
node_of m (some (n, t)) = n

pub table_split :
    (t : Table) (k : Name) (n : TreeNode)
    → lookup t.0 k ≡ some n
    → (before after : Rows) × (t.0 ≡ before ++ (k, n) ∷ after)
table_split t k n e =
    let (before, after, whole, rest) = found-split t.0 k n e in (before, after, whole)

pub insert_cases :
    (t : Table) (k : Name) (n : TreeNode) (o : Option TreeNode) (e : lookup t.0 k ≡ o) (t' : Table)
    → o ≡ none
    → table_insert t k n o e ≡ some t'
    → (before after : Rows) × (t.0 ≡ before ++ after) × (t'.0 ≡ before ++ (k, n) ∷ after)
unfolding rows_of
insert_cases t k n (some o) e t' q h = absurd (cc)
insert_cases t k n none e t' q h = ([], t.0, refl, sym (ap rows_of h))

pub insert_present :
    (t : Table) (k : Name) (n o : TreeNode) (p : Option TreeNode) (e : lookup t.0 k ≡ p)
    → p ≡ some o
    → table_insert t k n p e ≡ some t
insert_present t k n o none e f = absurd (cc)
insert_present t k n o (some q) e f = refl

pub insert_absent :
    (t : Table) (k : Name) (n : TreeNode) (p : Option TreeNode) (e : lookup t.0 k ≡ p)
    → p ≡ none
    → (t' : Table) × (table_insert t k n p e ≡ some t')
      × (lookup t'.0 k ≡ some n)
      × ((j : Name) → j ≢ k → lookup t'.0 j ≡ lookup t.0 j)
insert_absent t k n (some q) e f = absurd (cc)
insert_absent t k n none e f =
    (((k, n) ∷ t.0, (e, t.1)), refl, rw (same_name_self k) refl, λ j ne. rw (different j k ne) refl)

pub delete_cases :
    (t t' : Table) (k : Name) (n : TreeNode) (p : Option TreeNode)
    → lookup t.0 k ≡ p
    → table_delete t k p ≡ some (n, t')
    → (before after : Rows) × (t.0 ≡ before ++ (k, n) ∷ after) × (t'.0 ≡ before ++ after)
unfolding left_of node_of
delete_cases t t' k n none e h = absurd (cc)
delete_cases t t' k n (some m) e h =
    let (before, after, whole, rest) = found-split t.0 k m e in
    (
      before,
      after,
      whole ∙ ap (λ m. before ++ (k, m) ∷ after) (ap (node_of m) h),
      sym (ap left_of h) ∙ rest,
    )

abbrev pub tables : SearchTree
tables = record {
  Tree = Table;
  create = ([], tt);
  search = λ t k. lookup t.0 k;
  insert = λ t k n. table_insert t k n (lookup t.0 k) refl;
  delete = λ t k. table_delete t k (lookup t.0 k);
  search-create = λ k. refl;
  insert-present = λ t k n o e. insert_present t k n o (lookup t.0 k) refl e;
  insert-absent = λ t k n e. insert_absent t k n (lookup t.0 k) refl e;
  delete-absent = λ t k e. rw e refl;
  delete-present = λ t k n e. (
    (drop t.0 k, drop-Once t.0 k t.1),
    rw e refl,
    drop-here t.0 k t.1,
    λ j ne. drop-other t.0 k j ne,
  );
  in_order = λ t. t.0;
  in_order-create = refl;
  in_order-insert = λ t t' k n q h. insert_cases t k n (lookup t.0 k) refl t' q h;
  in_order-delete = λ t t' k n h. delete_cases t t' k n (lookup t.0 k) refl h;
  in_order-search = table_split;
}
