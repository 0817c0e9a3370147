-- ===== src/Trace/Steady.antt =====
-- The predicates of runs that every call keeps: a further interface, for what no file decides.
use arjim.Base.{◌∷◌, ◌≡◌, refl, Bool, true, false, arith}
use arjim.Effects.{
  FilePath, Event, Os, Run, created, unlinked, replaced, os_create, os_unlink, os_replace,
}
use arjim.Trace.{is_marker}
use arjim.Effects.Rules.{Keeps, Keeps-call}
use arjim.Trace.Quiet.{Quiet, is_quiet}

pub record Steady (P : Run → Type 0) : Type 0 where
  pub event : (e : Event) (s : Run) → P s → P (record s { log = e ∷ s.log })
  pub flag : (s : Run) → P s → P (record s { consumed = true })

module _ {P : Run → Type 0} (t : Steady P) where
  pub Steady-Quiet : Quiet P
  Steady-Quiet = record { event = λ e q. t.event e; flag = t.flag }

  pub Steady-create : (os : Os) (p : FilePath) → Keeps P (os_create os p)
  unfolding os_create
  Steady-create os p =
      Keeps-call (λ log. os.create log p) (created p) λ s a. t.event (created p a) s

  pub Steady-unlink : (os : Os) (p : FilePath) → Keeps P (os_unlink os p)
  unfolding os_unlink
  Steady-unlink os p =
      Keeps-call (λ log. os.unlink log p) (unlinked p) λ s a. t.event (unlinked p a) s

  pub Steady-replace : (os : Os) (p q : FilePath) → Keeps P (os_replace os p q)
  unfolding os_replace
  Steady-replace os p q =
      Keeps-call (λ log. os.replace log p q) (replaced p q) λ s a. t.event (replaced p q a) s

-- The events but the creation of the marker.
abbrev pub makes_marker : FilePath → Event → Bool
makes_marker w (created p r) = is_marker w p
makes_marker w _ = false

-- The predicates that every call keeps but the creation of the marker of this workspace.
pub record Beside (w : FilePath) (P : Run → Type 0) : Type 0 where
  pub event :
      (e : Event) → makes_marker w e ≡ false → (s : Run) → P s → P (record s { log = e ∷ s.log })
  pub flag : (s : Run) → P s → P (record s { consumed = true })

pub Steady-Beside : {w : FilePath} {P : Run → Type 0} → Steady P → Beside w P
Steady-Beside t = record { event = λ e m. t.event e; flag = t.flag }

quiet-makes_marker : (w : FilePath) (e : Event) → is_quiet e ≡ true → makes_marker w e ≡ false
quiet-makes_marker w _ q = ground arith

module _ {P : Run → Type 0} {w : FilePath} (t : Beside w P) where
  pub Beside-Quiet : Quiet P
  Beside-Quiet = record { event = λ e q. t.event e (quiet-makes_marker w e q); flag = t.flag }

  pub Beside-create : (os : Os) (p : FilePath) → is_marker w p ≡ false → Keeps P (os_create os p)
  unfolding os_create
  Beside-create os p m =
      Keeps-call (λ log. os.create log p) (created p) λ s a. t.event (created p a) m s

  pub Beside-unlink : (os : Os) (p : FilePath) → Keeps P (os_unlink os p)
  unfolding os_unlink
  Beside-unlink os p =
      Keeps-call (λ log. os.unlink log p) (unlinked p) λ s a. t.event (unlinked p a) refl s

  pub Beside-replace : (os : Os) (p q : FilePath) → Keeps P (os_replace os p q)
  unfolding os_replace
  Beside-replace os p q =
      Keeps-call (λ log. os.replace log p q) (replaced p q) λ s a. t.event (replaced p q a) refl s

pub ruleset beside = (Beside-Quiet, Beside-create, Beside-unlink, Beside-replace)

pub ruleset steady = (Steady-Quiet, Steady-create, Steady-unlink, Steady-replace)
