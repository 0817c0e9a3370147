-- ===== src/Trace/Touched.antt =====
-- Whether a run has changed a file, or has tried to.
use arjim.Base.{Bool, true, false, ◌≡◌, refl, [], ◌∷◌, arith}
use arjim.Effects.{Event, Log, Run, created, wrote, unlinked, replaced}
use arjim.Trace.Quiet.{is_quiet, Quiet}

-- The run has changed a file, or has tried to.
unfoldable pub touched : Log → Bool
touched [] = false
touched (created _ _ ∷ log) = true
touched (wrote _ _ _ ∷ log) = true
touched (unlinked _ _ ∷ log) = true
touched (replaced _ _ _ ∷ log) = true
touched (_ ∷ log) = touched log

pub touched-quiet :
    (e : Event) (log : Log) → is_quiet e ≡ true → touched (e ∷ log) ≡ true → touched log ≡ true
unfolding touched
touched-quiet _ log q h = first_of (ground arith, search)

-- No file has been changed.
pub record Calm (s : Run) : Type 0 where
  pub calm : touched s.log ≡ false

not_touched : (b c : Bool) → (b ≡ true → c ≡ true) → c ≡ false → b ≡ false
not_touched true c k e = ground (arith, k refl, e)
not_touched false c k e = refl

pub Calm-Quiet : Quiet Calm
Calm-Quiet = record {
  event = λ e q s v. record { calm = not_touched _ _ (touched-quiet e s.log q) v.calm };
  flag = λ s v. record { calm = v.calm };
}
