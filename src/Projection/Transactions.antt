-- ===== src/Projection/Transactions.antt =====
-- projection.py: what a transaction of the projection gives, and the table that it leaves.
use arjim.Base.{String, ◌⊎◌, inl, inr, Bool, true, false, ◌≡◌, refl, List, if◌then◌else◌}
use arjim.Errors.{Exn, Result, ok, err}
use arjim.Runtime.{Runtime}
use arjim.Effects.{
  FilePath, Reply, done, already_exists, not_found, failed, Os, M, pure, raise, ◌>>=◌, attempt,
  os_exists, os_mkdir, os_owner_only, time_now, transaction, Run, continue, handle,
}
use arjim.Effects.Raises.{Raises, ErrIs, raises, Raises-raise}
use arjim.Effects.Returns.{Returns, OkIs, Returns-after, Returns-bind, Returns-pure}
use arjim.Projection.{
  Row, caught, enforce_owner_only, store_made, ensure_store, verify_sidecar, verify_sidecars,
  connect, open_store, committed, closed_with, transact, run_transaction,
}

abbrev pub IsStoreError : Exn → Type 0
IsStoreError e = (e ≡ Exn.projection_store_error) ⊎ (e ≡ Exn.sqlite_error)

-- The table afterwards is what `fn` made of it, or it is as before.
abbrev pub Transacted :
    (String → Result (List Row)) → List Row → Result (Unit {0}) × List Row → Type 0
Transacted fn rows (ok u, after) = (now : String) × (fn now ≡ ok after)
Transacted fn rows (err e, after) =
    (IsStoreError e × ((after ≡ rows) ⊎ ((now : String) × (fn now ≡ ok after))))
    ⊎ ((after ≡ rows) × ((now : String) × (fn now ≡ err e)))

module _ (os : Os) where
  os_exists-Raises : (p : FilePath) → Raises IsStoreError (os_exists os p)
  unfolding os_exists
  os_exists-Raises p = search raises

  os_mkdir-Raises : (p : FilePath) → Raises IsStoreError (os_mkdir os p)
  unfolding os_mkdir
  os_mkdir-Raises p = search raises

  os_owner_only-Raises : (p : FilePath) → Raises IsStoreError (os_owner_only os p)
  unfolding os_owner_only
  os_owner_only-Raises p = search raises

  transaction-Raises : Raises IsStoreError (transaction os)
  unfolding transaction
  transaction-Raises = search raises

  refusal-Raises : Raises {A = Unit {0}} IsStoreError (raise Exn.projection_store_error)
  refusal-Raises = Raises-raise Exn.projection_store_error (inl refl)

  ruleset calls = (
    raises, os_exists-Raises, os_mkdir-Raises, os_owner_only-Raises, transaction-Raises,
    refusal-Raises,
  )

  enforce-Raises : (p : FilePath) → Raises IsStoreError (enforce_owner_only os p)
  unfolding enforce_owner_only
  enforce-Raises p = search calls

  store_made-Raises : (p : FilePath) (r : Reply) → Raises IsStoreError (store_made os p r)
  unfolding store_made
  store_made-Raises p done = enforce-Raises p
  store_made-Raises p already_exists = enforce-Raises p
  store_made-Raises p not_found = refusal-Raises
  store_made-Raises p failed = refusal-Raises

  pub ensure_store-Raises : (p : FilePath) → Raises IsStoreError (ensure_store os p)
  unfolding ensure_store
  ensure_store-Raises p = search (calls, enforce-Raises, store_made-Raises)

  verify_sidecar-Raises : (p : FilePath) → Raises IsStoreError (verify_sidecar os p)
  unfolding verify_sidecar
  verify_sidecar-Raises p = search (calls, enforce-Raises)

  verify_sidecars-Raises : (p : FilePath) → Raises IsStoreError (verify_sidecars os p)
  unfolding verify_sidecars
  verify_sidecars-Raises p = search (calls, verify_sidecar-Raises)

  connect-Raises : (p : FilePath) → Raises IsStoreError (connect os p)
  unfolding connect
  connect-Raises p = search (calls, enforce-Raises)

  pub open_store-Raises : (p : FilePath) → Raises IsStoreError (open_store os p)
  unfolding open_store
  open_store-Raises p = search (calls, ensure_store-Raises, connect-Raises, verify_sidecars-Raises)

caught-Returns {ℓ} :
    {A : Type ℓ} (G : Exn → Type 0) (m : M A) → Raises G m → Returns (ErrIs G) (caught m)
unfolding attempt pure ◌>>=◌
caught-Returns {A} G m k = record { at = λ s. let (r, s') = m s in go r s' (k.at s) }
  where
    go :
        (r : Result A) (s : Run)
        → ErrIs G r
        → OkIs
            (ErrIs G)
            (handle
              (continue r (λ a. pure (ok a)) s).0
              (λ e. pure (err e))
              (continue r (λ a. pure (ok a)) s).1).0
    go (ok a) s h = tt
    go (err e) s h = h

module _ (os : Os) (fn : String → Result (List Row)) (rows : List Row) where
  committed-Returns :
      (now : String) (r : Result (List Row))
      → fn now ≡ r
      → Returns (Transacted fn rows) (committed os rows r)
  unfolding committed
  committed-Returns now (err e) same = Returns-pure (err e, rows) (inr (refl, (now, same)))
  committed-Returns now (ok changed) same =
      Returns-bind (transaction os)
        (λ good. pure (if good then (ok tt, changed) else (err Exn.sqlite_error, rows))) go
    where
      go :
          (good : Bool)
          → Returns
              (Transacted fn rows)
              (pure (if good then (ok tt, changed) else (err Exn.sqlite_error, rows)))
      go true = Returns-pure (ok tt, changed) (now, same)
      go false = Returns-pure (err Exn.sqlite_error, rows) (inl (inr refl, inl refl))

  table_of :
      (answer : Result (Unit {0}) × List Row)
      → Transacted fn rows answer
      → (answer.1 ≡ rows) ⊎ ((now : String) × (fn now ≡ ok answer.1))
  table_of (ok u, after) t = inr t
  table_of (err e, after) (inl t) = t.1
  table_of (err e, after) (inr t) = inl t.0

  closed_with-Transacted :
      (answer : Result (Unit {0}) × List Row) (verified : Result (Unit {0}))
      → Transacted fn rows answer
      → ErrIs IsStoreError verified
      → Transacted fn rows (closed_with os answer verified)
  unfolding closed_with
  closed_with-Transacted answer (ok u) t v = t
  closed_with-Transacted answer (err e) t v = inl (v, table_of answer t)

  transact-Returns :
      (store_dir : FilePath) (now : String) (opened : Result (Unit {0}))
      → ErrIs IsStoreError opened
      → Returns (Transacted fn rows) (transact os store_dir rows fn now opened)
  unfolding transact
  transact-Returns store_dir now (err e) h = Returns-pure (err e, rows) (inl (h, inl refl))
  transact-Returns store_dir now (ok u) h =
      Returns-after (Transacted fn rows) (committed os rows (fn now)) _
        (committed-Returns now (fn now) refl)
        λ answer t.
          Returns-after (ErrIs IsStoreError) (caught (verify_sidecars os store_dir)) _
            (caught-Returns IsStoreError (verify_sidecars os store_dir)
              (verify_sidecars-Raises os store_dir))
            λ verified v.
              Returns-pure (closed_with os answer verified)
                (closed_with-Transacted answer verified t v)

  pub run_transaction-Transacted :
      (rt : Runtime) (store_dir : FilePath)
      → Returns (Transacted fn rows) (run_transaction os rt store_dir rows fn)
  unfolding run_transaction
  run_transaction-Transacted rt store_dir = Returns-bind (time_now os) _ λ now.
      Returns-after (ErrIs IsStoreError) (caught (open_store os store_dir)) _
        (caught-Returns IsStoreError (open_store os store_dir) (open_store-Raises os store_dir))
        λ opened h. transact-Returns store_dir (rt.format_timestamp now) opened h
