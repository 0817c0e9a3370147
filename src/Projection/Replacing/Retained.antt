-- ===== src/Projection/Replacing/Retained.antt =====
-- projection.py: the table after the transaction of `rebuild`, and what makes it fail.
use mathlib.Core.Path.{subst}
use arjim.Base.{
  ℕ, String, some, true, false, ◌||◌, ◌≡◌, refl, ap, ◌∙◌, List, [], ◌∷◌, ◌==◌, string_eq, nat_eq,
  list_eq, contains, All, arith, list_beq_iff, beq_self,
}
use arjim.Errors.{ok}
use arjim.Runtime.{Runtime}
use arjim.Effects.Returns.{OkIs}
use arjim.Registration.Inspect.{item_text}
use arjim.Projection.{Row, has_other, select_target, targets, insert_row, keep_targets}
use arjim.Projection.Rows.{
  IsUnique, Distinct, insert_row-IsUnique, insert_row-select, keep_targets-IsUnique, put,
}
use arjim.Projection.Replacing.{Root, root_key, root_row, insert_roots, purge, replace}
use arjim.Projection.Replacing.Inserting.{
  OkIs-bind, OkIs-at, OkIs-map, put-other, put-own, insert_row-contains, keep_targets-contains_iff,
  keep_targets-select, insert_row-agrees, keys_of,
}

module _ (rt : Runtime) (now : String) where
  -- The table has the root's row for its handle.
  unfoldable pub Listed : List Row → Root → Type 0
  Listed rows root =
      (row : Row) × ((root_row rt now root ≡ ok row)
        × (select_target (root_key rt root) rows ≡ some row))

  -- No row of another identity stands in the way of the root.
  unfoldable pub Agrees : List Row → Root → Type 0
  Agrees rows root =
      (row : Row) × ((root_row rt now root ≡ ok row)
        × (has_other row.identity (select_target (root_key rt root) rows) ≡ false))

  record Inserted (roots : List Root) (rows after : List Row) : Type 0 where
    unique : IsUnique after
    listed : All (Listed after) roots
    agreed : All (Agrees rows) roots
    others :
        (t : List ℕ)
        → contains (keys_of rt roots) t ≡ false
        → select_target t after ≡ select_target t rows
    handles :
        (t : List ℕ)
        → contains (targets after) t ≡ (contains (keys_of rt roots) t || contains (targets rows) t)

  root_row-key :
      (root : Root) → OkIs (λ row. row.target_handle ≡ root_key rt root) (root_row rt now root)
  unfolding root_row
  root_row-key root =
      let P = λ (row : Row). row.target_handle ≡ root_key rt root in
      OkIs-bind P (item_text rt "identity" root.marker) _ λ i e.
        OkIs-bind P (item_text rt "label" root.marker) _
          λ l e'. OkIs-bind P (item_text rt "version" root.marker) _ λ v e''. refl

  other_listed :
      (row : Row) (rows mid : List Row) (roots : List Root)
      → ((t : List ℕ) → select_target t mid ≡ put row rows t)
      → contains (keys_of rt roots) row.target_handle ≡ false
      → All (Agrees mid) roots
      → All (Agrees rows) roots
  unfolding Agrees
  other_listed row rows mid [] s h a = tt
  other_listed row rows mid (root ∷ roots) s h ((own, (e, f)), rest) = (
    (
      own,
      (
        e,
        subst (λ o. has_other own.identity o ≡ false)
            (s (root_key rt root) ∙ put-other row rows (root_key rt root) (ground arith)) f,
      ),
    ),
    other_listed row rows mid roots s (ground arith) rest,
  )

  step :
      (root : Root) (roots : List Root) (row : Row) (rows mid after : List Row)
      → Distinct (keys_of rt (root ∷ roots))
      → root_row rt now root ≡ ok row
      → row.target_handle ≡ root_key rt root
      → has_other row.identity (select_target row.target_handle rows) ≡ false
      → ((t : List ℕ) → select_target t mid ≡ put row rows t)
      → ((t : List ℕ)
          → contains (targets mid) t ≡ (t == row.target_handle || contains (targets rows) t))
      → Inserted roots mid after
      → Inserted (root ∷ roots) rows after
  unfolding Distinct Listed Agrees
  step root roots row rows mid after d e k agree sel hand i = record {
    unique = i.unique;
    listed = (
      (
        row,
        (
          e,
          i.others (root_key rt root) d.0
              ∙ sel (root_key rt root)
              ∙ put-own row rows (root_key rt root) k,
        ),
      ),
      i.listed,
    );
    agreed = (
      (row, (e, subst (λ t. has_other row.identity (select_target t rows) ≡ false) k agree)),
      other_listed row rows mid roots sel (ap (contains (keys_of rt roots)) k ∙ d.0) i.agreed,
    );
    others = λ t h.
        i.others t (ground arith)
        ∙ sel t
        ∙ put-other row rows t (
            ground (arith, list_beq_iff row.target_handle t, list_beq_iff t (root_key rt root), k));
    handles = λ t. i.handles t ∙ rw (hand t, k) (ground arith);
  }

  insert_roots-Inserted :
      (roots : List Root) (rows : List Row)
      → IsUnique rows
      → Distinct (keys_of rt roots)
      → OkIs (Inserted roots rows) (insert_roots rt now roots rows)
  unfolding insert_roots Distinct
  insert_roots-Inserted [] rows u d = record {
    unique = u;
    listed = tt;
    agreed = tt;
    others = λ t h. refl;
    handles = λ t. refl;
  }
  insert_roots-Inserted (root ∷ roots) rows u d =
      OkIs-bind (Inserted (root ∷ roots) rows) (root_row rt now root) _ λ row e.
        OkIs-bind (Inserted (root ∷ roots) rows) (insert_row row rows) _ λ mid e'.
          OkIs-map (Inserted roots mid) (Inserted (root ∷ roots) rows)
            (insert_roots rt now roots mid)
            (λ after.
              step root roots row rows mid after d e
                (OkIs-at _ (root_row rt now root) row e (root_row-key root))
                (OkIs-at _ (insert_row row rows) mid e' (insert_row-agrees row rows u))
                (λ t. OkIs-at _ (insert_row row rows) mid e' (insert_row-select row rows t u))
                (λ t. OkIs-at _ (insert_row row rows) mid e' (insert_row-contains row rows t)))
            (insert_roots-Inserted roots mid
              (OkIs-at _ (insert_row row rows) mid e' (insert_row-IsUnique row rows u)) d.1)

  kept_listed :
      (keys : List (List ℕ)) (after : List Row) (roots : List Root)
      → ((t : List ℕ) → contains (keys_of rt roots) t ≡ true → contains keys t ≡ true)
      → All (Listed after) roots
      → All (Listed (keep_targets keys after)) roots
  unfolding Listed
  kept_listed keys after [] sub l = tt
  kept_listed keys after (root ∷ roots) sub ((row, (e, f)), rest) = (
    (
      row,
      (
        e,
        keep_targets-select keys after (root_key rt root)
              (sub (root_key rt root) (ground (arith, beq_self (root_key rt root))))
            ∙ f,
      ),
    ),
    kept_listed keys after roots (λ t h. sub t (ground arith)) rest,
  )

  -- The table after the transaction: one row for each root, and no other.
  pub record Replaced (roots : List Root) (rows after : List Row) : Type 0 where
    pub unique : IsUnique after
    pub listed : All (Listed after) roots
    pub handles : (t : List ℕ) → contains (targets after) t ≡ contains (keys_of rt roots) t
    pub agreed : All (Agrees rows) roots

  purge-Replaced :
      (roots : List Root) (rows after : List Row)
      → Inserted roots rows after
      → Replaced roots rows (purge rt roots after)
  unfolding purge select_target Distinct
  purge-Replaced [] rows after i = record {
    unique = tt;
    listed = tt;
    handles = λ t. refl;
    agreed = tt;
  }
  purge-Replaced (root ∷ roots) rows after i = record {
    unique = keep_targets-IsUnique (keys_of rt (root ∷ roots)) after i.unique;
    listed = kept_listed (keys_of rt (root ∷ roots)) after (root ∷ roots) (λ t h. h) i.listed;
    handles = λ t.
        keep_targets-contains_iff (keys_of rt (root ∷ roots)) after t
        ∙ rw (i.handles t) (ground arith);
    agreed = i.agreed;
  }

  pub replace-Replaced :
      (roots : List Root) (rows : List Row)
      → IsUnique rows
      → Distinct (keys_of rt roots)
      → OkIs (Replaced roots rows) (replace rt roots now rows)
  unfolding replace
  replace-Replaced roots rows u d =
      OkIs-bind (Replaced roots rows) (insert_roots rt now roots rows) _ λ after e.
        purge-Replaced roots rows after (
          OkIs-at (Inserted roots rows) (insert_roots rt now roots rows) after e
            (insert_roots-Inserted roots rows u d))

-- From a table with one row for each target, and for roots with distinct handles, the transaction
-- of `rebuild` succeeds only if no row of another identity has the handle of a root: it does not
-- repair such an entry.
pub replace-Agrees :
    (rt : Runtime) (now : String) (roots : List Root) (rows : List Row)
    → IsUnique rows
    → Distinct (keys_of rt roots)
    → OkIs (λ _. All (Agrees rt now rows) roots) (replace rt roots now rows)
replace-Agrees rt now roots rows u d =
    OkIs-map (Replaced rt now roots rows) (λ _. All (Agrees rt now rows) roots)
      (replace rt roots now rows) (λ after r. r.agreed) (replace-Replaced rt now roots rows u d)
