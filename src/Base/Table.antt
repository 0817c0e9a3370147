-- ===== src/Base/Table.antt =====
-- A table with a primary key, as SQLite keeps it: rows in the order of their insertion.
use mathlib.Core.Path.{◌≡◌, refl}
use mathlib.Core.Option.{Option, none, some}
use mathlib.Core.List.{List, [], ◌∷◌}
use native.Mathlib.Omega.{arith}
use arjim.Base.Tests.{if◌then◌else◌}
use arjim.Base.Equality.{Eq, ◌==◌}

abbrev pub Table {ℓ κ} : Type ℓ → Type κ → Type (ℓ ⊔ κ)
Table K V = List (K × V)

module _ {ℓ κ} {K : Type ℓ} {V : Type κ} ⦃e : Eq K⦄ where
  -- `SELECT … WHERE key = ?`, the first row
  unfoldable pub select : K → Table K V → Option V
  select key [] = none
  select key ((own, row) ∷ rows) = if own == key then some row else select key rows

  -- `INSERT … ON CONFLICT(key) DO UPDATE SET …`
  unfoldable pub upsert : K → V → Table K V → Table K V
  upsert key row [] = (key, row) ∷ []
  upsert key row ((own, old) ∷ rows) =
      let rest = upsert key row rows in if own == key then (own, row) ∷ rows else (own, old) ∷ rest

  -- `DELETE … WHERE key = ?`
  unfoldable pub delete : K → Table K V → Table K V
  delete key [] = []
  delete key ((own, old) ∷ rows) =
      let rest = delete key rows in if own == key then rest else (own, old) ∷ rest

  pub select-upsert :
      (key other : K) (row : V) (rows : Table K V)
      → select other (upsert key row rows) ≡ (if key == other then some row else select other rows)
  unfolding select upsert
  select-upsert key other row [] = refl
  select-upsert key other row ((own, old) ∷ rows) = ground (
    arith,
    e.beq_iff own key,
    e.beq_iff own other,
    e.beq_iff key other,
    select-upsert key other row rows,
  )

  pub select-delete :
      (key other : K) (rows : Table K V)
      → select other (delete key rows) ≡ (if key == other then none else select other rows)
  unfolding select delete
  select-delete key other [] = ground arith
  select-delete key other ((own, old) ∷ rows) = ground (
    arith,
    e.beq_iff own key,
    e.beq_iff own other,
    e.beq_iff key other,
    select-delete key other rows,
  )
