-- ===== src/Effects/Rules.antt =====
-- Rules for what runs keep and ensure, whatever the environment answers.
use arjim.Base.{Bool, true, false, ◌∷◌, if◌then◌else◌}
use arjim.Errors.{Exn, Result, ok, err}
use arjim.Effects.{
  Run, M, Event, pure, raise, lift, call, continue, ◌>>=◌, handle, attempt, keep, finally, Log,
}

-- From a state with P, the action ends in a state with Q of its result.
pub record Ensures {ℓ} {A : Type ℓ} (P : Run → Type 0) (m : M A) (Q : Result A → Run → Type 0)
    : Type ℓ where
  pub at : (s : Run) → P s → Q (m s).0 (m s).1

-- The action keeps P, whether it returns or raises.
pub record Keeps {ℓ} {A : Type ℓ} (P : Run → Type 0) (m : M A) : Type ℓ where
  pub at : (s : Run) → P s → P (m s).1

module _ {ℓ} {A : Type ℓ} {P : Run → Type 0} where
  pub Keeps-pure : (a : A) → Keeps P (pure a)
  unfolding pure
  Keeps-pure a = record { at = λ s kept. kept }

  pub Keeps-raise : (e : Exn) → Keeps P (raise {A = A} e)
  unfolding raise
  Keeps-raise e = record { at = λ s kept. kept }

  pub Keeps-lift : (r : Result A) → Keeps P (lift r)
  unfolding lift
  Keeps-lift r = record { at = λ s kept. kept }

  pub Keeps-call :
      (answer : Log → A) (event : A → Event)
      → ((s : Run) (a : A) → P s → P (record s { log = event a ∷ s.log }))
      → Keeps P (call answer event)
  unfolding call
  Keeps-call answer event k = record { at = λ s h. k s (answer s.log) h }

  pub Keeps-if : (b : Bool) (m n : M A) → Keeps P m → Keeps P n → Keeps P (if b then m else n)
  Keeps-if true m n km kn = km
  Keeps-if false m n km kn = kn

  pub Keeps-attempt :
      (m : M A) (h : Exn → M A) → Keeps P m → ((e : Exn) → Keeps P (h e)) → Keeps P (attempt m h)
  unfolding attempt
  Keeps-attempt m h km kh = record { at = λ s p. let (r, s') = m s in go r s' (km.at s p) }
    where
      go : (r : Result A) (s : Run) → P s → P (handle r h s).1
      go (ok a) s p = p
      go (err e) s p = (kh e).at s p

  pub Keeps-finally : (m : M A) (c : M (Unit {0})) → Keeps P m → Keeps P c → Keeps P (finally m c)
  unfolding finally
  Keeps-finally m c km kc = record {
    at = λ s p. let (r, s') = m s in go r (c s') (kc.at s' (km.at s p));
  }
    where
      go : (r : Result A) (t : Result (Unit {0}) × Run) → P t.1 → P (keep r t).1
      go r (ok u, s) p = p
      go r (err e, s) p = p

module _ {ℓ κ} {A : Type ℓ} {B : Type κ} {P : Run → Type 0} where
  pub Keeps-bind :
      (m : M A) (next : A → M B) → Keeps P m → ((a : A) → Keeps P (next a)) → Keeps P (m >>= next)
  unfolding ◌>>=◌
  Keeps-bind m next km kn = record { at = λ s p. let (r, s') = m s in go r s' (km.at s p) }
    where
      go : (r : Result A) (s : Run) → P s → P (continue r next s).1
      go (ok a) s p = (kn a).at s p
      go (err e) s p = p

-- Rules for a postcondition of the result.
module _ {ℓ κ} {A : Type ℓ} {B : Type κ} {P : Run → Type 0} where
  pub Ensures-bind :
      (Q : Result A → Run → Type 0) {R : Result B → Run → Type 0} (m : M A) (f : A → M B)
      → Ensures P m Q
      → ((a : A) → Ensures (Q (ok a)) (f a) R)
      → ((e : Exn) (s : Run) → Q (err e) s → R (err e) s)
      → Ensures P (m >>= f) R
  unfolding ◌>>=◌
  Ensures-bind Q {R} m f em ef lose = record {
    at = λ s p. let (r, s') = m s in go r s' (em.at s p);
  }
    where
      go : (r : Result A) (s : Run) → Q r s → R (continue r f s).0 (continue r f s).1
      go (ok a) s q = (ef a).at s q
      go (err e) s q = lose e s q

module _ {ℓ} {A : Type ℓ} {P : Run → Type 0} where
  pub Ensures-attempt :
      (Q : Result A → Run → Type 0) {R : Result A → Run → Type 0} (m : M A) (h : Exn → M A)
      → Ensures P m Q
      → ((a : A) (s : Run) → Q (ok a) s → R (ok a) s)
      → ((e : Exn) → Ensures (Q (err e)) (h e) R)
      → Ensures P (attempt m h) R
  unfolding attempt
  Ensures-attempt Q {R} m h em win eh = record {
    at = λ s p. let (r, s') = m s in go r s' (em.at s p);
  }
    where
      go : (r : Result A) (s : Run) → Q r s → R (handle r h s).0 (handle r h s).1
      go (ok a) s q = win a s q
      go (err e) s q = (eh e).at s q

  pub Ensures-pure :
      (Q : Result A → Run → Type 0) (a : A) → ((s : Run) → P s → Q (ok a) s) → Ensures P (pure a) Q
  unfolding pure
  Ensures-pure Q a k = record { at = λ s p. k s p }

  pub Ensures-raise :
      (Q : Result A → Run → Type 0) (e : Exn)
      → ((s : Run) → P s → Q (err e) s)
      → Ensures P (raise {A = A} e) Q
  unfolding raise
  Ensures-raise Q e k = record { at = λ s p. k s p }

module _ {ℓ} {A : Type ℓ} {P R : Run → Type 0} where
  -- A clean-up that starts from what the body keeps.
  pub Ensures-finally :
      (m : M A) (c : M (Unit {0}))
      → Keeps P m
      → ((s : Run) → P s → R s)
      → Keeps R c
      → Ensures P (finally m c) (λ _. R)
  unfolding finally
  Ensures-finally m c km weaken kc = record {
    at = λ s p. let (r, s') = m s in go r (c s') (kc.at s' (weaken s' (km.at s p)));
  }
    where
      go : (r : Result A) (t : Result (Unit {0}) × Run) → R t.1 → R (keep r t).1
      go r (ok u, s) p = p
      go r (err e, s) p = p

  pub Ensures-from :
      (Q : Result A → Run → Type 0) (m : M A)
      → ((s : Run) → R s → P s)
      → Ensures P m Q
      → Ensures R m Q
  Ensures-from Q m f e = record { at = λ s r. e.at s (f s r) }

module _ {ℓ} {A : Type ℓ} {P : Run → Type 0} where
  -- A clean-up that keeps what is said of each result.
  pub Ensures-finally-each :
      (T : Result A → Run → Type 0) (m : M A) (c : M (Unit {0}))
      → Ensures P m T
      → ((r : Result A) → Keeps (T r) c)
      → ((e : Exn) (s : Run) → T (err e) s)
      → Ensures P (finally m c) T
  unfolding finally
  Ensures-finally-each T m c em kc raised = record {
    at = λ s p. let (r, s') = m s in go r (c s') ((kc r).at s' (em.at s p));
  }
    where
      go : (r : Result A) (t : Result (Unit {0}) × Run) → T r t.1 → T (keep r t).0 (keep r t).1
      go r (ok u, s) p = p
      go r (err e, s) p = raised e s

  pub Keeps-Ensures : (m : M A) → Ensures P m (λ _. P) → Keeps P m
  Keeps-Ensures m e = record { at = e.at }

  pub Ensures-Keeps :
      (Q : Result A → Run → Type 0) (m : M A)
      → Keeps P m
      → ((r : Result A) (s : Run) → P s → Q r s)
      → Ensures P m Q
  Ensures-Keeps Q m k w = record { at = λ s p. w (m s).0 (m s).1 (k.at s p) }

  pub Ensures-call :
      (Q : Result A → Run → Type 0) (answer : Log → A) (event : A → Event)
      → ((s : Run) (a : A) → P s → Q (ok a) (record s { log = event a ∷ s.log }))
      → Ensures P (call answer event) Q
  unfolding call
  Ensures-call Q answer event k = record { at = λ s h. k s (answer s.log) h }
