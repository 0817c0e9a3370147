-- ===== src/Projection/Rebuild/Roots.antt =====
-- projection.py: the roots that `rebuild` retains of its input.
use arjim.Base.{
  ℕ, zero, suc, ◌+◌, ◌<◌, Option, none, some, ◌⊎◌, inl, inr, true, false, ◌≡◌, refl, ap, sym, ◌∙◌,
  List, [], ◌∷◌, ◌++◌, contains, list_beq_iff, nat_eq, list_eq, All, All-append, arith, Bool-cases,
}
use mathlib.Core.Path.{subst}
use arjim.Json.{Json}
use arjim.Errors.{Exn, Result, ok, err}
use arjim.Runtime.{Runtime}
use arjim.Effects.{FilePath, Os, Run, M, lift, handle}
use arjim.Effects.Returns.{
  OkIs, Returns, Returns-after, Returns-attempt, Returns-bind, Returns-pure, Returns-raise,
}
use arjim.Filesystem.{TargetHandle, handle_to_bytes, capture_target_handle}
use arjim.Registration.Stages.{
  Stage, read_stage, guard_failed, undecodable, not_dict, schema_rejected, accepted,
}
use arjim.Projection.Rows.{Distinct, Distinct-snoc}
use arjim.Projection.Replacing.{Root, root_key}
use arjim.Projection.Replacing.Inserting.{keys_of}
use arjim.Projection.Rebuild.{
  Detail, accepted_marker, parse_marker, root_of, parse_root, read_root, capture_failed,
  resolve_root, advance, resolve_roots,
}

abbrev pub nth : List FilePath → ℕ → Option FilePath
nth [] n = none
nth (p ∷ paths) zero = some p
nth (p ∷ paths) (suc n) = nth paths n

lt_or_eq : (i n : ℕ) → i < suc n → (i < n) ⊎ (i ≡ n)
lt_or_eq i n l = ground arith

below_or_from : (i n : ℕ) → (i < n) ⊎ ((j : ℕ) × (i ≡ n + j))
below_or_from i zero = inr (i, omega arith)
below_or_from zero (suc n) = inl (omega arith)
below_or_from (suc i) (suc n) = elim (below_or_from i n) [
  | inl l ↦ inl (omega arith)
  | inr (j, e) ↦ inr (j, omega arith)
]

some_inj : {p q : FilePath} → some p ≡ some q → p ≡ q
some_inj e = cc

none_some : {p : FilePath} → none ≡ some p → ⊥
none_some e = cc

-- A key of a list stays one where the list grows.
contains-grow :
    (keys : List (List ℕ)) (new k : List ℕ)
    → contains keys k ≡ true
    → contains (keys ++ new ∷ []) k ≡ true
contains-grow [] new k h = ground arith
contains-grow (key ∷ keys) new k h = ground (arith, contains-grow keys new k)

contains-last : (keys : List (List ℕ)) (k : List ℕ) → contains (keys ++ k ∷ []) k ≡ true
contains-last [] k = ground (arith, list_beq_iff k k)
contains-last (key ∷ keys) k = ground (arith, contains-last keys k)

module _ (rt : Runtime) (os : Os) where
  -- The environment gives the path this handle in some run.
  abbrev pub Captured : FilePath → TargetHandle → Type 0
  Captured path h = (s : Run) × ((capture_target_handle rt os path s).0 ≡ ok h)

  -- The marker is one that the guard and the schema accept.
  abbrev pub Accepted : Json → Type 0
  Accepted marker = (raw : List ℕ) × (read_stage rt raw ≡ ok (accepted marker))

  -- The root is the path at its ordinal, counted from 1, with its handle and an accepted marker.
  unfoldable pub FromInput : List FilePath → Root → Type 0
  FromInput paths root =
      ((n : ℕ) × ((root.ordinal ≡ suc n) × (nth paths n ≡ some root.path)))
      × (Captured root.path root.handle × Accepted root.marker)

  -- The path has a handle that one of the roots has.
  abbrev pub Known : List Root → FilePath → Type 0
  Known roots path =
      (h : TargetHandle) × (Captured path h
        × (contains (keys_of rt roots) (handle_to_bytes rt h) ≡ true))

  -- The first `n` paths are known.
  abbrev Reached : List FilePath → ℕ → List Root → Type 0
  Reached paths n roots = (i : ℕ) (p : FilePath) → i < n → nth paths i ≡ some p → Known roots p

  -- The roots of a rebuild: paths of the input, no two with one target handle; every path of the
  -- input has the handle of a root.
  abbrev pub Retained : List FilePath → List Root → Type 0
  Retained paths roots =
      (Distinct (keys_of rt roots) × All (FromInput paths) roots)
      × ((i : ℕ) (p : FilePath) → nth paths i ≡ some p → Known roots p)

  abbrev NewRoot : List Root → ℕ → FilePath → Option Root ⊎ Detail → Type 0
  NewRoot resolved ordinal path (inl (some root)) =
      ((contains (keys_of rt resolved) (root_key rt root) ≡ false)
        × ((root.ordinal ≡ ordinal) × (root.path ≡ path)))
      × (Captured path root.handle × Accepted root.marker)
  NewRoot resolved ordinal path (inl none) = Known resolved path
  NewRoot resolved ordinal path (inr d) = Unit {0}

  abbrev HandleOf : FilePath → TargetHandle ⊎ Detail → Type 0
  HandleOf path (inl h) = Captured path h
  HandleOf path (inr d) = Unit {0}

  abbrev MarkerOf : Option Json → Type 0
  MarkerOf none = Unit {0}
  MarkerOf (some m) = Accepted m

  capture-Captured : (path : FilePath) → Returns (Captured path) (capture_target_handle rt os path)
  capture-Captured path = record { at = λ s. go s (capture_target_handle rt os path s).0 refl }
    where
      go :
          (s : Run) (r : Result TargetHandle)
          → (capture_target_handle rt os path s).0 ≡ r
          → OkIs (Captured path) r
      go s (ok h) e = (s, e)
      go s (err x) e = tt

  accepted_marker-Accepted :
      (raw : List ℕ) (stage : Stage)
      → read_stage rt raw ≡ ok stage
      → MarkerOf (accepted_marker rt stage)
  unfolding accepted_marker
  accepted_marker-Accepted raw (guard_failed g) e = tt
  accepted_marker-Accepted raw undecodable e = tt
  accepted_marker-Accepted raw (not_dict d) e = tt
  accepted_marker-Accepted raw (schema_rejected d r) e = tt
  accepted_marker-Accepted raw (accepted d) e = (raw, e)

  parse_marker-Accepted : (raw : List ℕ) → Returns MarkerOf (parse_marker rt raw)
  unfolding parse_marker lift
  parse_marker-Accepted raw =
      Returns-after (λ stage. read_stage rt raw ≡ ok stage) (lift (read_stage rt raw)) _
        (record { at = λ s. go (read_stage rt raw) refl s })
        λ stage e. Returns-pure _ (accepted_marker-Accepted raw stage e)
    where
      go :
          (r : Result Stage)
          → read_stage rt raw ≡ r
          → (s : Run) → OkIs (λ stage. read_stage rt raw ≡ ok stage) (lift r s).0
      go (ok stage) e s = e
      go (err x) e s = tt

module _ (rt : Runtime) (os : Os) (store_dir : FilePath) (resolved : List Root) (ordinal : ℕ)
    (path : FilePath) where
  root_of-NewRoot :
      (handle : TargetHandle) (marker : Option Json)
      → Captured rt os path handle
      → contains (keys_of rt resolved) (handle_to_bytes rt handle) ≡ false
      → MarkerOf rt os marker
      → NewRoot rt os resolved ordinal path (root_of rt os store_dir ordinal path handle marker)
  unfolding root_of
  root_of-NewRoot handle none c h m = tt
  root_of-NewRoot handle (some marker) c h m = ((h, (refl, refl)), (c, m))

  parse_root-NewRoot :
      (handle : TargetHandle) (raw : List ℕ ⊎ Detail)
      → Captured rt os path handle
      → contains (keys_of rt resolved) (handle_to_bytes rt handle) ≡ false
      → Returns
          (NewRoot rt os resolved ordinal path)
          (parse_root rt os store_dir ordinal path handle raw)
  unfolding parse_root
  parse_root-NewRoot handle (inr d) c h = Returns-pure (inr d) tt
  parse_root-NewRoot handle (inl raw) c h =
      Returns-after (MarkerOf rt os) _ _ (parse_marker-Accepted rt os raw)
        λ marker m. Returns-pure _ (root_of-NewRoot handle marker c h m)

  read_root-NewRoot :
      (handle : TargetHandle ⊎ Detail)
      → HandleOf rt os path handle
      → Returns
          (NewRoot rt os resolved ordinal path)
          (read_root rt os store_dir resolved ordinal path handle)
  unfolding read_root
  read_root-NewRoot (inr d) c = Returns-pure (inr d) tt
  read_root-NewRoot (inl handle) c =
      elim (Bool-cases (contains (keys_of rt resolved) (handle_to_bytes rt handle))) [
        | inl e ↦ rw e (Returns-pure (inl none) (handle, (c, e)))
        | inr e ↦ rw e (Returns-bind _ _ λ raw. parse_root-NewRoot handle raw c e)
      ]

  capture_failed-HandleOf :
      (e : Exn) → Returns (HandleOf rt os path) (capture_failed rt os store_dir path e)
  unfolding capture_failed
  capture_failed-HandleOf Exn.identity_unavailable = Returns-pure _ tt
  capture_failed-HandleOf Exn.target_alias_mismatch = Returns-pure _ tt
  capture_failed-HandleOf Exn.redirected_marker_component = Returns-pure _ tt
  capture_failed-HandleOf e = Returns-raise e

  resolve_root-NewRoot :
      Returns
        (NewRoot rt os resolved ordinal path)
        (resolve_root rt os store_dir resolved ordinal path)
  unfolding resolve_root
  resolve_root-NewRoot =
      Returns-after (HandleOf rt os path) _ _
        (Returns-attempt _ _
          (Returns-after (Captured rt os path) (capture_target_handle rt os path) _
            (capture-Captured rt os path) λ h c. Returns-pure (inl h) c)
          capture_failed-HandleOf)
        read_root-NewRoot

module _ (rt : Runtime) (os : Os) (store_dir : FilePath) (inputs : List FilePath) where
  abbrev pub AllRetained : List Root ⊎ Detail → Type 0
  AllRetained (inl roots) = Retained rt os inputs roots
  AllRetained (inr d) = Unit {0}

  -- What the loop has before the path with this index.
  abbrev SoFar : ℕ → List Root → Type 0
  SoFar n roots =
      (Distinct (keys_of rt roots) × All (FromInput rt os inputs) roots)
      × Reached rt os inputs n roots

  keys_of-snoc :
      (roots : List Root) (root : Root)
      → keys_of rt (roots ++ root ∷ []) ≡ keys_of rt roots ++ root_key rt root ∷ []
  keys_of-snoc [] root = refl
  keys_of-snoc (r ∷ roots) root = ap (◌∷◌ (root_key rt r)) (keys_of-snoc roots root)

  Known-snoc :
      (roots : List Root) (root : Root) (p : FilePath)
      → Known rt os roots p
      → Known rt os (roots ++ root ∷ []) p
  Known-snoc roots root p (h, (c, k)) = (
    h,
    (c, rw (keys_of-snoc roots root) (contains-grow (keys_of rt roots) (root_key rt root) _ k)),
  )

  Known-last :
      (roots : List Root) (root : Root)
      → Captured rt os root.path root.handle
      → Known rt os (roots ++ root ∷ []) root.path
  Known-last roots root c = (
    root.handle,
    (c, rw (keys_of-snoc roots root) (contains-last (keys_of rt roots) (root_key rt root))),
  )

  -- One more path is known.
  Reached-suc :
      (n : ℕ) (path : FilePath) (roots : List Root)
      → nth inputs n ≡ some path
      → Known rt os roots path
      → Reached rt os inputs n roots
      → Reached rt os inputs (suc n) roots
  Reached-suc n path roots h k r i p l e = elim (lt_or_eq i n l) [
    | inl below ↦ r i p below e
    | inr same ↦ subst (Known rt os roots) (some_inj (sym h ∙ (ap (nth inputs) (sym same) ∙ e))) k
  ]

  advance-Retained :
      (resolved : List Root) (n : ℕ) (path : FilePath) (step : Option Root ⊎ Detail)
      (go_on : List Root → M (List Root ⊎ Detail))
      → SoFar n resolved
      → nth inputs n ≡ some path
      → NewRoot rt os resolved (suc n) path step
      → ((roots : List Root) → SoFar (suc n) roots → Returns AllRetained (go_on roots))
      → Returns AllRetained (advance rt os store_dir resolved step go_on)
  unfolding advance FromInput
  advance-Retained resolved n path (inr d) go_on r h new k = Returns-pure (inr d) tt
  advance-Retained resolved n path (inl none) go_on r h new k =
      k resolved (r.0, Reached-suc n path resolved h new r.1)
  advance-Retained resolved n path (inl (some root)) go_on r h ((fresh, (o, p)), (c, m)) k =
      let c' = subst (λ q. Captured rt os q root.handle) (sym p) c in
      k (resolved ++ root ∷ []) (
        (
          subst Distinct (sym (keys_of-snoc resolved root))
              (Distinct-snoc (keys_of rt resolved) (root_key rt root) r.0.0 fresh),
          All-append (FromInput rt os inputs) resolved (root ∷ []) r.0.1
              (((n, (o, h ∙ ap some (sym p))), (c', m)), tt),
        ),
        Reached-suc n path (resolved ++ root ∷ []) h
            (subst (Known rt os (resolved ++ root ∷ [])) p (Known-last resolved root c'))
            λ i q l e. Known-snoc resolved root q (r.1 i q l e),
      )

  pub resolve_roots-Retained :
      (resolved : List Root) (n : ℕ) (paths : List FilePath)
      → SoFar n resolved
      → ((i : ℕ) → nth inputs (n + i) ≡ nth paths i)
      → Returns AllRetained (resolve_roots rt os store_dir resolved (suc n) paths)
  unfolding resolve_roots
  resolve_roots-Retained resolved n [] r h = Returns-pure (inl resolved) (
    r.0,
    λ i p e. elim (below_or_from i n) [
      | inl below ↦ r.1 i p below e
      | inr (j, past) ↦ absurd (none_some (sym (h j) ∙ (ap (nth inputs) (sym past) ∙ e)))
    ],
  )
  resolve_roots-Retained resolved n (path ∷ paths) r h =
      Returns-after (NewRoot rt os resolved (suc n) path)
        (resolve_root rt os store_dir resolved (suc n) path) _
        (resolve_root-NewRoot rt os store_dir resolved (suc n) path)
        λ step new.
          advance-Retained resolved n path step _ r
            (subst (λ i. nth inputs i ≡ some path) (omega arith) (h 0)) new
            λ roots r'.
              resolve_roots-Retained roots (suc n) paths r'
                λ i. subst (λ j. nth inputs j ≡ nth paths i) (omega arith) (h (suc i))
