-- ===== src/Sql/Dml/Pending.antt =====
-- src/sql/dml.rs: the rows that an UPDATE or a DELETE has read and not yet written.
use skvs.Prelude.{
  ℕ, ◌≡◌, ◌≢◌, ◌∙◌, inl, inr, Option, some, List, [], ◌∷◌, Bool-cases, nat_eq, string_eq,
  nat_beq_iff, arith,
}
use skvs.Prelude.Map.{lookup}
use skvs.Value.{Value, Row, RowId}
use skvs.State.{KvsState, Store}
use skvs.Expr.Ast.{Expr}
use skvs.Sql.Env.{Env}
use skvs.Sql.Where.{matches}
use skvs.Sql.Dml.{selected}

-- No entry of the list has this row id.
pub data Apart (r : RowId) : List (RowId × Row) → Type 0 where
  apart_nil : Apart r []
  apart_cons :
      {q : RowId} {row : Row} {rest : List (RowId × Row)}
      → r ≢ q
      → Apart r rest
      → Apart r ((q, row) ∷ rest)

-- No row id twice, as in every map.
pub data Distinct : List (RowId × Row) → Type 0 where
  distinct_nil : Distinct []
  distinct_cons :
      {r : RowId} {row : Row} {rest : List (RowId × Row)}
      → Apart r rest
      → Distinct rest
      → Distinct ((r, row) ∷ rest)

-- Every entry reads as it stands, and none comes twice.
pub data Pending (look : RowId → Option Row) : List (RowId × Row) → Type 0 where
  done : Pending look []
  next :
      {r : RowId} {row : Row} {rest : List (RowId × Row)}
      → look r ≡ some row
      → Apart r rest
      → Pending look rest
      → Pending look ((r, row) ∷ rest)

pub Pending-Apart :
    (r : RowId) (look look' : RowId → Option Row) (rows : List (RowId × Row))
    → ((q : RowId) → r ≢ q → look' q ≡ look q)
    → Apart r rows
    → Pending look rows
    → Pending look' rows
Pending-Apart r look look' [] h a p = done
Pending-Apart r look look' ((q, row) ∷ rest) h (apart_cons n a) (next e b p) =
    next (h q n ∙ e) b (Pending-Apart r look look' rest h a p)

pub Pending-cong :
    (look look' : RowId → Option Row) (rows : List (RowId × Row))
    → ((q : RowId) → look' q ≡ look q)
    → Pending look rows
    → Pending look' rows
Pending-cong look look' [] h p = done
Pending-cong look look' ((q, row) ∷ rest) h (next e a p) =
    next (h q ∙ e) a (Pending-cong look look' rest h p)

pub Pending-store : (rows : Store) → Distinct rows → Pending (λ q. lookup q rows) rows
unfolding lookup
Pending-store [] d = done
Pending-store ((r, row) ∷ rest) (distinct_cons a d) = next (ground (arith, nat_beq_iff r r)) a (
    Pending-Apart r (λ q. lookup q rest) _ rest (λ q n. ground (arith, nat_beq_iff r q)) a
      (Pending-store rest d))

module _ (x : Env) (db : ℕ) (params : List Value) (tx : Option ℕ) where
  pub Apart-selected :
      (r : RowId) (where' : Option Expr) (i : ℕ) (s : KvsState) (rows : List (RowId × Row))
      → Apart r rows
      → Apart r (selected x db params tx where' i s rows)
  unfolding selected
  Apart-selected r where' i s [] a = a
  Apart-selected r where' i s ((q, row) ∷ rest) (apart_cons n a) =
      elim (Bool-cases (matches x.externs s db row params where' i)) [
        | inl e ↦ rw (e, selected) (apart_cons n (Apart-selected r where' i s rest a))
        | inr e ↦ rw (e, selected) (Apart-selected r where' i s rest a)
      ]

  pub Pending-selected :
      (look : RowId → Option Row) (where' : Option Expr) (i : ℕ) (s : KvsState)
      (rows : List (RowId × Row))
      → Pending look rows
      → Pending look (selected x db params tx where' i s rows)
  unfolding selected
  Pending-selected look where' i s [] p = p
  Pending-selected look where' i s ((q, row) ∷ rest) (next e a p) =
      elim (Bool-cases (matches x.externs s db row params where' i)) [
        | inl h ↦
            rw (h, selected)
              (next e (Apart-selected q where' i s rest a)
                (Pending-selected look where' i s rest p))
        | inr h ↦ rw (h, selected) (Pending-selected look where' i s rest p)
      ]
