-- ===== src/Trace/Paths.antt =====
-- The files of a workspace that the code tells apart: the marker, the lock and the temporary lock.
use Prim.Native.Char.{code}
use Prim.Native.String.append
use arjim.Base.{
  ℕ, suc, ◌∙◌, ap, arith, Bool-cases, inl, inr, String, ◌<>◌, true, false, ◌≡◌, refl, ◌==◌,
  beq_self, list_eq, string_eq,
}
use arjim.Effects.{FilePath}
use arjim.Filesystem.{lock_path}
use arjim.Filesystem.Lock.{tmp_path}
use arjim.Trace.{is_marker, is_lock}

pub marker-lock : (w : FilePath) → is_marker w (lock_path w) ≡ false
marker-lock w = refl

pub lock-lock : (w : FilePath) → is_lock w (lock_path w) ≡ true
lock-lock w = beq_self (lock_path w)

first_char : String → ℕ
first_char String.[] = 0
first_char (String.◌∷◌ c s) = code c

first_char-append : (s t : String) (c : ℕ) → first_char s ≡ suc c → first_char (s <> t) ≡ suc c
unfolding first_char
first_char-append String.[] t c h = omega (arith, h)
first_char-append (String.◌∷◌ d s) t c h = ap first_char (append.cons d s t) ∙ h

first_char-tmp : (s : String) → first_char ("..registration.lock." <> s) ≡ b'.'
unfolding first_char
first_char-tmp s = first_char-append "..registration.lock." s 45 refl

-- A temporary name is not another name, by its first letter.
tmp-other :
    (s name : String) → first_char name ≡ b'm' → (("..registration.lock." <> s) == name) ≡ false
tmp-other s name m = elim (Bool-cases (("..registration.lock." <> s) == name)) [
  | inl e ↦ ground (
    arith,
    m,
    first_char-tmp s,
    ap first_char ((string_eq.beq_iff ("..registration.lock." <> s) name).0 e),
  )
  | inr e ↦ e
]

pub marker-tmp : (w : FilePath) (hex : String) → is_marker w (tmp_path w hex) ≡ false
unfolding first_char
marker-tmp w hex = rw (tmp-other (hex <> ".tmp") "manifest.json" refl) refl
