-- ===== src/Projection/Rows.antt =====
-- projection.py: what the statements of the source make of the rows of the table.
use arjim.Base.{
  ℕ, String, Option, some, inl, inr, Bool, true, false, ◌&&◌, ◌≡◌, refl, ap, sym, ◌∙◌, List, [],
  ◌∷◌, ◌++◌, if◌then◌else◌, ◌==◌, string_eq, nat_eq, list_eq, contains, arith, Bool-cases, list_beq,
  list_beq_iff, any,
}
use arjim.Effects.Returns.{OkIs}
use arjim.Projection.{
  Row, select_target, same_key, update_row, targets, insert_by, insert_row, delete_row,
  keep_targets,
}

-- No two elements are equal.
unfoldable pub Distinct : List (List ℕ) → Type 0
Distinct [] = Unit {0}
Distinct (k ∷ keys) = (contains keys k ≡ false) × Distinct keys

-- The unique index: no two rows have one target handle.
abbrev pub IsUnique : List Row → Type 0
IsUnique rows = Distinct (targets rows)

contains-snoc :
    (keys : List (List ℕ)) (k t : List ℕ)
    → contains keys t ≡ false
    → (k ≡ t → ⊥)
    → contains (keys ++ k ∷ []) t ≡ false
contains-snoc [] k t h d = ground (arith, list_beq_iff t k, d)
contains-snoc (key ∷ keys) k t h d = ground (arith, contains-snoc keys k t)

pub Distinct-snoc :
    (keys : List (List ℕ)) (k : List ℕ)
    → Distinct keys
    → contains keys k ≡ false
    → Distinct (keys ++ k ∷ [])
unfolding Distinct
Distinct-snoc [] k u h = (refl, tt)
Distinct-snoc (key ∷ keys) k u h = (
  contains-snoc keys k key u.0 λ e. ground (arith, list_beq_iff k key, h, e),
  Distinct-snoc keys k u.1 ground arith,
)

pub targets-snoc :
    (rows : List Row) (new : Row)
    → targets (rows ++ new ∷ []) ≡ targets rows ++ new.target_handle ∷ []
targets-snoc [] new = refl
targets-snoc (r ∷ rows) new = ap (◌∷◌ r.target_handle) (targets-snoc rows new)

replaced_target :
    (new r : Row) → (if same_key new r then new else r).target_handle ≡ r.target_handle
replaced_target new r = elim (Bool-cases (same_key new r)) [
  | inl e ↦ rw e (ground (arith, list_beq_iff r.target_handle new.target_handle))
  | inr e ↦ rw e refl
]

-- `DO UPDATE` takes no handle away and brings none.
pub update_row-targets :
    (new : Row) (rows : List Row) → targets (update_row new rows) ≡ targets rows
unfolding update_row
update_row-targets new [] = refl
update_row-targets new (r ∷ rows) = rw (replaced_target new r, update_row-targets new rows) refl

pub insert_row-IsUnique :
    (new : Row) (rows : List Row) → IsUnique rows → OkIs IsUnique (insert_row new rows)
unfolding insert_row insert_by
insert_row-IsUnique new rows u =
    go (any (same_key new) rows) (contains (targets rows) new.target_handle) refl
  where
    go :
        (b c : Bool)
        → contains (targets rows) new.target_handle ≡ c
        → OkIs IsUnique (insert_by new rows b c)
    go true c e = rw (update_row-targets new rows) u
    go false true e = tt
    go false false e =
        rw (targets-snoc rows new) (Distinct-snoc (targets rows) new.target_handle u e)

delete_row-contains :
    (identity : String) (target t : List ℕ) (rows : List Row)
    → contains (targets rows) t ≡ false
    → contains (targets (delete_row identity target rows)) t ≡ false
unfolding delete_row
delete_row-contains identity target t [] h = h
delete_row-contains identity target t (r ∷ rows) h =
    ground (arith, delete_row-contains identity target t rows)

keep_targets-contains :
    (keys : List (List ℕ)) (t : List ℕ) (rows : List Row)
    → contains (targets rows) t ≡ false
    → contains (targets (keep_targets keys rows)) t ≡ false
unfolding keep_targets
keep_targets-contains keys t [] h = h
keep_targets-contains keys t (r ∷ rows) h = ground (arith, keep_targets-contains keys t rows)

IsUnique-if :
    (b : Bool) (r : Row) (rest : List Row)
    → contains (targets rest) r.target_handle ≡ false
    → IsUnique rest
    → IsUnique (if b then rest else r ∷ rest) × IsUnique (if b then r ∷ rest else rest)
unfolding Distinct
IsUnique-if true r rest h u = (u, (h, u))
IsUnique-if false r rest h u = ((h, u), u)

pub delete_row-IsUnique :
    (identity : String) (target : List ℕ) (rows : List Row)
    → IsUnique rows
    → IsUnique (delete_row identity target rows)
unfolding delete_row Distinct
delete_row-IsUnique identity target [] u = tt
delete_row-IsUnique identity target (r ∷ rows) u =
    (IsUnique-if (r.identity == identity && r.target_handle == target) r
      (delete_row identity target rows)
      (delete_row-contains identity target r.target_handle rows u.0)
      (delete_row-IsUnique identity target rows u.1)).0

pub keep_targets-IsUnique :
    (keys : List (List ℕ)) (rows : List Row) → IsUnique rows → IsUnique (keep_targets keys rows)
unfolding keep_targets Distinct
keep_targets-IsUnique keys [] u = tt
keep_targets-IsUnique keys (r ∷ rows) u =
    (IsUnique-if (contains keys r.target_handle) r (keep_targets keys rows)
      (keep_targets-contains keys r.target_handle rows u.0) (keep_targets-IsUnique keys rows u.1)).1

-- What a statement that leaves `new` for its handle, and all else as it was, answers.
abbrev pub put : Row → List Row → List ℕ → Option Row
put new rows t = if new.target_handle == t then some new else select_target t rows

update_row-absent :
    (new : Row) (rows : List Row)
    → contains (targets rows) new.target_handle ≡ false
    → update_row new rows ≡ rows
unfolding update_row
update_row-absent new [] h = refl
update_row-absent new (r ∷ rows) h = ground (
  arith,
  list_beq_iff r.target_handle new.target_handle,
  list_beq_iff new.target_handle r.target_handle,
  update_row-absent new rows,
)

pub any_key-contains :
    (new : Row) (rows : List Row)
    → any (same_key new) rows ≡ true
    → contains (targets rows) new.target_handle ≡ true
any_key-contains new [] h = cc
any_key-contains new (r ∷ rows) h = ground (
  arith,
  list_beq_iff r.target_handle new.target_handle,
  list_beq_iff new.target_handle r.target_handle,
  any_key-contains new rows,
)

pub same_contains :
    (keys : List (List ℕ)) (a b : List ℕ) → list_beq a b ≡ true → contains keys a ≡ contains keys b
same_contains keys a b e = ap (contains keys) ((list_beq_iff a b).0 e)

same_target : (new r : Row) → same_key new r ≡ true → r.target_handle ≡ new.target_handle
same_target new r e = ground (arith, list_beq_iff r.target_handle new.target_handle)

absent_below :
    (new r : Row) (rows : List Row)
    → same_key new r ≡ true
    → contains (targets rows) r.target_handle ≡ false
    → contains (targets rows) new.target_handle ≡ false
absent_below new r rows e h = sym (ap (contains (targets rows)) (same_target new r e)) ∙ h

update_row-select :
    (new : Row) (rows : List Row) (t : List ℕ)
    → IsUnique rows
    → any (same_key new) rows ≡ true
    → select_target t (update_row new rows) ≡ put new rows t
unfolding update_row select_target Distinct
update_row-select new [] t u h = cc
update_row-select new (r ∷ rows) t u h = elim (Bool-cases (same_key new r)) [
  | inl e ↦
      rw (e, update_row-absent new rows (absent_below new r rows e u.0))
        (ground (
          arith,
          list_beq_iff r.target_handle t,
          list_beq_iff new.target_handle t,
          same_target new r e,
        ))
  | inr e ↦ rw e (
      ground (
        arith,
        list_beq_iff r.target_handle t,
        list_beq_iff new.target_handle t,
        u.0,
        any_key-contains new rows,
        same_contains (targets rows) r.target_handle new.target_handle,
        update_row-select new rows t u.1,
      ))
]

snoc-select :
    (new : Row) (rows : List Row) (t : List ℕ)
    → contains (targets rows) new.target_handle ≡ false
    → select_target t (rows ++ new ∷ []) ≡ put new rows t
unfolding select_target
snoc-select new [] t h = refl
snoc-select new (r ∷ rows) t h = ground (
  arith,
  list_beq_iff r.target_handle t,
  list_beq_iff new.target_handle t,
  list_beq_iff new.target_handle r.target_handle,
  snoc-select new rows t,
)

-- The statement leaves the new row for its handle, and the others as they were.
pub insert_row-select :
    (new : Row) (rows : List Row) (t : List ℕ)
    → IsUnique rows
    → OkIs (λ after. select_target t after ≡ put new rows t) (insert_row new rows)
unfolding insert_row insert_by
insert_row-select new rows t u =
    go (any (same_key new) rows) (contains (targets rows) new.target_handle) refl refl
  where
    go :
        (b c : Bool)
        → any (same_key new) rows ≡ b
        → contains (targets rows) new.target_handle ≡ c
        → OkIs (λ after. select_target t after ≡ put new rows t) (insert_by new rows b c)
    go true c e h = update_row-select new rows t u e
    go false true e h = tt
    go false false e h = snoc-select new rows t h
