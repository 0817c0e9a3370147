-- ===== src/Effects/Returns.antt =====
-- What holds of the value that an action returns, from every state and in every environment.
use arjim.Base.{Bool, true, false, ◌⊎◌, inl, inr, if◌then◌else◌}
use arjim.Errors.{Exn, Result, ok, err}
use arjim.Effects.{Run, M, pure, raise, continue, ◌>>=◌, handle, attempt, keep, finally}

abbrev pub OkIs {ℓ} : {A : Type ℓ} → (A → Type 0) → Result A → Type 0
OkIs F (ok a) = F a
OkIs F (err e) = Unit {0}

-- The same of the right side of a sum.
abbrev pub OrIs {ℓ κ} : {A : Type ℓ} {B : Type κ} → (B → Type 0) → A ⊎ B → Type 0
OrIs F (inl a) = Unit {0}
OrIs F (inr b) = F b

pub record Returns {ℓ} {A : Type ℓ} (F : A → Type 0) (m : M A) : Type ℓ where
  pub at : (s : Run) → OkIs F (m s).0

module _ {ℓ} {A : Type ℓ} {F : A → Type 0} where
  pub Returns-pure : (a : A) → F a → Returns F (pure a)
  unfolding pure
  Returns-pure a f = record { at = λ s. f }

  pub Returns-raise : (e : Exn) → Returns F (raise e)
  unfolding raise
  Returns-raise e = record { at = λ s. tt }

  pub Returns-if :
      (b : Bool) (m n : M A) → Returns F m → Returns F n → Returns F (if b then m else n)
  Returns-if true m n km kn = km
  Returns-if false m n km kn = kn

  pub Returns-attempt :
      (m : M A) (h : Exn → M A)
      → Returns F m
      → ((e : Exn) → Returns F (h e))
      → Returns F (attempt m h)
  unfolding attempt
  Returns-attempt m h km kh = record { at = λ s. let (r, s') = m s in go r s' (km.at s) }
    where
      go : (r : Result A) (s : Run) → OkIs F r → OkIs F (handle r h s).0
      go (ok a) s f = f
      go (err e) s f = (kh e).at s

  pub Returns-finally : (m : M A) (c : M (Unit {0})) → Returns F m → Returns F (finally m c)
  unfolding finally
  Returns-finally m c km = record { at = λ s. let (r, s') = m s in go r (c s') (km.at s) }
    where
      go : (r : Result A) (t : Result (Unit {0}) × Run) → OkIs F r → OkIs F (keep r t).0
      go r (ok u, s) f = f
      go r (err e, s) f = tt

module _ {ℓ κ} {A : Type ℓ} {B : Type κ} {F : B → Type 0} where
  -- A step whose value may be anything.
  pub Returns-bind : (m : M A) (f : A → M B) → ((a : A) → Returns F (f a)) → Returns F (m >>= f)
  unfolding ◌>>=◌
  Returns-bind m f kf = record { at = λ s. let (r, s') = m s in go r s' }
    where
      go : (r : Result A) (s : Run) → OkIs F (continue r f s).0
      go (ok a) s = (kf a).at s
      go (err e) s = tt

  -- A step whose value is known to be of G.
  pub Returns-after :
      (G : A → Type 0) (m : M A) (f : A → M B)
      → Returns G m
      → ((a : A) → G a → Returns F (f a))
      → Returns F (m >>= f)
  unfolding ◌>>=◌
  Returns-after G m f km kf = record { at = λ s. let (r, s') = m s in go r s' (km.at s) }
    where
      go : (r : Result A) (s : Run) → OkIs G r → OkIs F (continue r f s).0
      go (ok a) s g = (kf a g).at s
      go (err e) s g = tt

-- A step that returns a value to go on from, or the result.
module _ {ℓ κ} {A : Type ℓ} {B : Type κ} {F : B → Type 0} where
  pub Returns-or :
      (m : M (A ⊎ B)) (f : A ⊎ B → M B)
      → Returns (OrIs F) m
      → ((r : A ⊎ B) → OrIs F r → Returns F (f r))
      → Returns F (m >>= f)
  Returns-or m f km kf = Returns-after (OrIs F) m f km kf

  pub Returns-inl : (m : M A) → Returns (OrIs {B = B} F) (m >>= λ a. pure (inl a))
  Returns-inl m = Returns-bind m (λ a. pure (inl a)) λ a. Returns-pure (inl a) tt

pub ruleset returns = (Returns-pure, Returns-raise, Returns-if, Returns-bind)
