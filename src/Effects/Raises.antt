-- ===== src/Effects/Raises.antt =====
-- What holds of the exceptions that an action raises, from every state and in every environment.
use arjim.Base.{Bool, true, false, if◌then◌else◌}
use arjim.Errors.{Exn, Result, ok, err}
use arjim.Effects.{Run, M, Event, Log, pure, raise, call, continue, ◌>>=◌, handle, attempt}

abbrev pub ErrIs {ℓ} : {A : Type ℓ} → (Exn → Type 0) → Result A → Type 0
ErrIs G (ok a) = Unit {0}
ErrIs G (err e) = G e

pub record Raises {ℓ} {A : Type ℓ} (G : Exn → Type 0) (m : M A) : Type ℓ where
  pub at : (s : Run) → ErrIs G (m s).0

module _ {ℓ} {A : Type ℓ} {G : Exn → Type 0} where
  pub Raises-pure : (a : A) → Raises G (pure a)
  unfolding pure
  Raises-pure a = record { at = λ s. tt }

  pub Raises-raise : (e : Exn) → G e → Raises G (raise {A = A} e)
  unfolding raise
  Raises-raise e g = record { at = λ s. g }

  pub Raises-if : (b : Bool) (m n : M A) → Raises G m → Raises G n → Raises G (if b then m else n)
  Raises-if true m n km kn = km
  Raises-if false m n km kn = kn

  pub Raises-call : (answer : Log → A) (event : A → Event) → Raises G (call answer event)
  unfolding call
  Raises-call answer event = record { at = λ s. tt }

  pub Raises-attempt :
      (m : M A) (h : Exn → M A)
      → Raises G m
      → ((e : Exn) → G e → Raises G (h e))
      → Raises G (attempt m h)
  unfolding attempt
  Raises-attempt m h km kh = record { at = λ s. let (r, s') = m s in go r s' (km.at s) }
    where
      go : (r : Result A) (s : Run) → ErrIs G r → ErrIs G (handle r h s).0
      go (ok a) s g = tt
      go (err e) s g = (kh e g).at s

module _ {ℓ κ} {A : Type ℓ} {B : Type κ} {G : Exn → Type 0} where
  pub Raises-bind :
      (m : M A) (f : A → M B) → Raises G m → ((a : A) → Raises G (f a)) → Raises G (m >>= f)
  unfolding ◌>>=◌
  Raises-bind m f km kf = record { at = λ s. let (r, s') = m s in go r s' (km.at s) }
    where
      go : (r : Result A) (s : Run) → ErrIs G r → ErrIs G (continue r f s).0
      go (ok a) s h = (kf a).at s
      go (err e) s h = h

pub ruleset raises = (Raises-pure, Raises-if, Raises-bind, Raises-call)
