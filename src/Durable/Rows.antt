-- ===== src/Durable/Rows.antt =====
-- Lemmas on the rows of the table and on the last element of a list.
use general_execution.Prelude.{
  String, String-discrete, subst, none, ◌≡◌, ◌≢◌, refl, ap, Bool, true, List, [], ◌∷◌, ◌++◌, length,
  some, string_eq, nat_eq, arith,
}
use general_execution.Capacity.{CapacityTransition}
use general_execution.Durable.{HeadRow, select_row, update_rows, without_last}

-- A list that is not empty is its elements but the last, and the last.
pub without_last-snoc :
    (ts : List CapacityTransition)
    → length ts ≢ 0
    → (t : CapacityTransition) × (ts ≡ without_last ts ++ t ∷ [])
unfolding without_last
without_last-snoc [] n = elim (n refl) [ ]
without_last-snoc (t ∷ []) n = (t, refl)
without_last-snoc (t ∷ u ∷ ts) n =
    let (last, same) = without_last-snoc (u ∷ ts) (omega arith) in (last, ap (λ xs. t ∷ xs) same)

-- The selected row is found again where it is updated.
pub select_row-update_rows :
    (id : String) (test : HeadRow → Bool) (change : HeadRow → HeadRow) (rows : List HeadRow)
    (x : HeadRow)
    → select_row id rows ≡ some x
    → test x ≡ true
    → ((y : HeadRow) → (change y).runner_id ≡ y.runner_id)
    → select_row id (update_rows test change rows).0 ≡ some (change x)
unfolding select_row update_rows
select_row-update_rows id test change [] x e t k = cc
select_row-update_rows id test change (y ∷ rows) x e t k =
    ground (arith, select_row-update_rows id test change rows x, k y, k x, e, t)

-- The rows of another runner stay.
pub select_row-update_rows-ne :
    (id : String) (test : HeadRow → Bool) (change : HeadRow → HeadRow) (rows : List HeadRow)
    → ((y : HeadRow) → test y ≡ true → y.runner_id ≢ id)
    → ((y : HeadRow) → (change y).runner_id ≡ y.runner_id)
    → select_row id (update_rows test change rows).0 ≡ select_row id rows
unfolding select_row update_rows
select_row-update_rows-ne id test change [] n k = refl
select_row-update_rows-ne id test change (y ∷ rows) n k =
    ground (arith, select_row-update_rows-ne id test change rows n k, k y, n y)

pub select_row-id :
    (id : String) (rows : List HeadRow) (x : HeadRow)
    → select_row id rows ≡ some x
    → x.runner_id ≡ id
unfolding select_row
select_row-id id [] x e = cc
select_row-id id (y ∷ rows) x e = ground (arith, select_row-id id rows x, e)

-- No two rows are of one runner: the primary key of the table.
abbrev pub HasKey : List HeadRow → Type 0
HasKey [] = Unit
HasKey (x ∷ rows) = (select_row x.runner_id rows ≡ none) × HasKey rows

none_updated :
    (id : String) (test : HeadRow → Bool) (change : HeadRow → HeadRow) (rows : List HeadRow)
    → ((y : HeadRow) → test y ≡ true → y.runner_id ≡ id)
    → select_row id rows ≡ none
    → (update_rows test change rows).1 ≡ 0
unfolding select_row update_rows
none_updated id test change [] k e = refl
none_updated id test change (y ∷ rows) k e =
    ground (arith, none_updated id test change rows k, k y, e)

-- An update of the selected row changes one row.
pub one_updated :
    (id : String) (test : HeadRow → Bool) (change : HeadRow → HeadRow) (rows : List HeadRow)
    (x : HeadRow)
    → HasKey rows
    → ((y : HeadRow) → test y ≡ true → y.runner_id ≡ id)
    → select_row id rows ≡ some x
    → test x ≡ true
    → (update_rows test change rows).1 ≡ 1
unfolding select_row update_rows
one_updated id test change [] x u k e t = cc
one_updated id test change (y ∷ rows) x u k e t = elim (String-discrete y.runner_id id) [
  | yes same ↦
      let none_left =
        none_updated id test change rows k (subst (λ i. select_row i rows ≡ none) same u.0) in
      ground (arith, none_left, e, t, same)
  | no other ↦ ground (arith, one_updated id test change rows x u.1 k, e, t, k y, other)
]
