-- ===== src/Filesystem/Marker/Conditional.antt =====
-- filesystem.py: the conditional deletion of a marker removes only what it has just read.
use arjim.Base.{
  sym, ◌∙◌, Option, none, some, Bool, true, false, List, ◌∷◌, ℕ, ◌≡◌, ◌≢◌, inl, inr, Bool-cases,
  beq_self, ◌==◌, list_eq, nat_eq,
}
use arjim.Errors.{Result, ok}
use arjim.Effects.{
  FilePath, Os, Run, Reply, read, unlinked, call, ◌>>=◌, pure, os_read, os_unlink, first,
}
use arjim.Filesystem.{marker_path, max_marker_read_bytes}
use arjim.Trace.{is_done}
use arjim.Filesystem.Marker.{delete_matching, conditional_delete_marker}

-- What happened: the marker was read, and left; or it was read as expected, and then the next
-- call was its removal, whose success is the answer.
pub data Verdict (w : FilePath) (expected : List ℕ) (s : Run) : Result Bool × Run → Type 0 where
  left_alone :
      (seen : Option (List ℕ))
      → seen ≢ some expected
      → Verdict w expected s (ok false, record s { log = read (marker_path w) seen ∷ s.log })
  removed :
      (reply : Reply)
      → Verdict w expected s (
        ok (is_done reply),
        record s {
          log = unlinked (marker_path w) reply ∷ read (marker_path w) (some expected) ∷ s.log;
        },
      )

module _ (os : Os) (w : FilePath) (expected : List ℕ) (s : Run) where
  differ : (raw : List ℕ) → (raw == expected) ≡ false → raw ≢ expected
  differ raw e same = let clash : false ≡ true = sym e ∙ (list_eq.beq_iff raw expected).1 same in cc

  verdict :
      (seen : Option (List ℕ))
      → Verdict w expected s (
          delete_matching os w expected seen (record s { log = read (marker_path w) seen ∷ s.log }))
  unfolding delete_matching pure ◌>>=◌ os_unlink call
  verdict none = left_alone none (λ h. cc)
  verdict (some raw) = elim (Bool-cases (raw == expected)) [
    | inl e ↦ rw ((list_eq.beq_iff raw expected).0 e) (
        rw (beq_self expected)
          (removed (os.unlink (read (marker_path w) (some expected) ∷ s.log) (marker_path w))))
    | inr e ↦ rw e (left_alone (some raw) (λ h. differ raw e cc))
  ]

  -- In every environment `conditional_delete_marker` reads the marker once. It removes the marker
  -- only as the very next call, after a read that gave the expected bytes, and answers whether the
  -- removal has succeeded; otherwise it leaves the marker and answers False.
  pub conditional_delete_marker-Verdict :
      Verdict w expected s (conditional_delete_marker os w expected s)
  unfolding conditional_delete_marker ◌>>=◌ os_read call
  conditional_delete_marker-Verdict =
      verdict (first os max_marker_read_bytes (os.content s.log (marker_path w)))
