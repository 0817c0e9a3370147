-- ===== src/Projection/Replacing/Inserting.antt =====
-- projection.py: what one insertion of `rebuild` does to the handles of the table.
use mathlib.Core.Path.{subst}
use arjim.Base.{
  ℕ, some, inl, inr, Bool, true, false, ◌&&◌, ◌||◌, ◌≡◌, refl, ap, ◌∙◌, List, [], ◌∷◌, ◌++◌, map,
  ◌==◌, string_eq, nat_eq, list_eq, contains, any, arith, Bool-cases, list_beq_iff,
}
use arjim.Errors.{Result, ok, err, ◌>>=◌}
use arjim.Runtime.{Runtime}
use arjim.Effects.Returns.{OkIs}
use arjim.Projection.{
  Row, has_other, select_target, same_key, targets, insert_by, insert_row, keep_targets,
}
use arjim.Projection.Rows.{
  IsUnique, Distinct, put, targets-snoc, update_row-targets, any_key-contains, same_contains,
}
use arjim.Projection.Replacing.{Root, root_key}

pub OkIs-bind {ℓ κ} :
    {A : Type ℓ} {B : Type κ} (P : B → Type 0) (r : Result A) (f : A → Result B)
    → ((a : A) → r ≡ ok a → OkIs P (f a))
    → OkIs P (r >>= f)
OkIs-bind P (ok a) f k = k a refl
OkIs-bind P (err e) f k = tt

pub OkIs-at {ℓ} : {A : Type ℓ} (P : A → Type 0) (r : Result A) (a : A) → r ≡ ok a → OkIs P r → P a
OkIs-at P r a e k = subst (OkIs P) e k

pub OkIs-map {ℓ} :
    {A : Type ℓ} (P Q : A → Type 0) (r : Result A) → ((a : A) → P a → Q a) → OkIs P r → OkIs Q r
OkIs-map P Q (ok a) f h = f a h
OkIs-map P Q (err e) f h = tt

pub put-other :
    (row : Row) (rows : List Row) (t : List ℕ)
    → (row.target_handle == t) ≡ false
    → put row rows t ≡ select_target t rows
put-other row rows t h = rw h refl

pub put-own :
    (row : Row) (rows : List Row) (t : List ℕ) → row.target_handle ≡ t → put row rows t ≡ some row
put-own row rows t h = rw ((list_beq_iff row.target_handle t).1 h) refl

contains-end :
    (keys : List (List ℕ)) (k t : List ℕ)
    → contains (keys ++ k ∷ []) t ≡ (t == k || contains keys t)
contains-end [] k t = refl
contains-end (key ∷ keys) k t = ground (arith, contains-end keys k t)

present :
    (keys : List (List ℕ)) (k t : List ℕ)
    → contains keys k ≡ true
    → contains keys t ≡ (t == k || contains keys t)
present keys k t h = elim (Bool-cases (t == k)) [
  | inl e ↦ rw (e, (list_beq_iff t k).0 e, h) refl
  | inr e ↦ rw e refl
]

-- The statement adds the handle of its row, if it is new.
pub insert_row-contains :
    (new : Row) (rows : List Row) (t : List ℕ)
    → OkIs
        (λ after.
          contains (targets after) t ≡ (t == new.target_handle || contains (targets rows) t))
        (insert_row new rows)
unfolding insert_row insert_by
insert_row-contains new rows t =
    go (any (same_key new) rows) (contains (targets rows) new.target_handle) refl
  where
    go :
        (b c : Bool)
        → any (same_key new) rows ≡ b
        → OkIs
            (λ after.
              contains (targets after) t ≡ (t == new.target_handle || contains (targets rows) t))
            (insert_by new rows b c)
    go true c e =
        ap (λ keys. contains keys t) (update_row-targets new rows)
        ∙ present (targets rows) new.target_handle t (any_key-contains new rows e)
    go false true e = tt
    go false false e =
        ap (λ keys. contains keys t) (targets-snoc rows new)
        ∙ contains-end (targets rows) new.target_handle t

pub keep_targets-contains_iff :
    (keys : List (List ℕ)) (rows : List Row) (t : List ℕ)
    → contains (targets (keep_targets keys rows)) t ≡ (contains keys t && contains (targets rows) t)
unfolding keep_targets
keep_targets-contains_iff keys [] t = ground arith
keep_targets-contains_iff keys (r ∷ rows) t = ground (
  arith,
  list_beq_iff t r.target_handle,
  same_contains keys t r.target_handle,
  keep_targets-contains_iff keys rows t,
)

pub keep_targets-select :
    (keys : List (List ℕ)) (rows : List Row) (t : List ℕ)
    → contains keys t ≡ true
    → select_target t (keep_targets keys rows) ≡ select_target t rows
unfolding keep_targets select_target
keep_targets-select keys [] t h = refl
keep_targets-select keys (r ∷ rows) t h = ground (
  arith,
  list_beq_iff r.target_handle t,
  same_contains keys r.target_handle t,
  keep_targets-select keys rows t h,
)

-- A row of another identity for the handle makes the statement fail.
any_key-agrees :
    (new : Row) (rows : List Row)
    → IsUnique rows
    → any (same_key new) rows ≡ true
    → has_other new.identity (select_target new.target_handle rows) ≡ false
unfolding has_other select_target Distinct
any_key-agrees new [] u h = cc
any_key-agrees new (r ∷ rows) u h = ground (
  arith,
  list_beq_iff r.target_handle new.target_handle,
  u.0,
  any_key-contains new rows,
  same_contains (targets rows) r.target_handle new.target_handle,
  any_key-agrees new rows u.1,
)

absent-agrees :
    (new : Row) (rows : List Row)
    → contains (targets rows) new.target_handle ≡ false
    → has_other new.identity (select_target new.target_handle rows) ≡ false
unfolding has_other select_target
absent-agrees new [] h = refl
absent-agrees new (r ∷ rows) h = ground (
  arith,
  list_beq_iff r.target_handle new.target_handle,
  list_beq_iff new.target_handle r.target_handle,
  absent-agrees new rows,
)

pub insert_row-agrees :
    (new : Row) (rows : List Row)
    → IsUnique rows
    → OkIs
        (λ _. has_other new.identity (select_target new.target_handle rows) ≡ false)
        (insert_row new rows)
unfolding insert_row insert_by
insert_row-agrees new rows u =
    go (any (same_key new) rows) (contains (targets rows) new.target_handle) refl refl
  where
    go :
        (b c : Bool)
        → any (same_key new) rows ≡ b
        → contains (targets rows) new.target_handle ≡ c
        → OkIs
            (λ _. has_other new.identity (select_target new.target_handle rows) ≡ false)
            (insert_by new rows b c)
    go true c e h = any_key-agrees new rows u e
    go false true e h = tt
    go false false e h = absent-agrees new rows h

abbrev pub keys_of : Runtime → List Root → List (List ℕ)
keys_of rt roots = map (root_key rt) roots
