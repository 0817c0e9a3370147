-- ===== src/Filesystem/Marker/Deleted.antt =====
-- filesystem.py: the events behind a deletion of the marker, and behind its absence.
use arjim.Base.{
  ◌≡◌, ◌==◌, ap, refl, inl, inr, Option, none, some, Bool, true, List, ℕ, ◌∷◌, Bool-cases, list_eq,
  nat_eq,
}
use arjim.Errors.{Result, ok}
use arjim.Effects.{
  FilePath, Os, Run, Log, Reply, done, already_exists, not_found, failed, StatReply, found, missing,
  stat_failed, read, unlinked, statted, first, pure, ◌>>=◌, call, os_read, os_unlink, os_stat,
}
use arjim.Effects.Rules.{Ensures}
use arjim.Filesystem.{marker_path, max_marker_read_bytes}
use arjim.Filesystem.Metadata.Evidence.{Once, Happened}
use arjim.Filesystem.Marker.{
  is_done, is_missing, delete_matching, conditional_delete_marker, verify_marker_absent,
}

-- The marker was removed, right after a read that gave these bytes.
abbrev pub Removed : FilePath → List ℕ → Run → Type 0
Removed w bytes s =
    Happened
      (λ e before.
        (e ≡ unlinked (marker_path w) done)
        × ((log : Log) × (before ≡ read (marker_path w) (some bytes) ∷ log)))
      s

-- The marker was seen to be missing.
abbrev pub Missed : FilePath → Run → Type 0
Missed w s = Happened (λ e before. e ≡ statted (marker_path w) missing) s

abbrev pub Deletes : FilePath → List ℕ → Result Bool → Run → Type 0
Deletes w bytes (ok true) s = Removed w bytes s
Deletes w bytes _ s = Unit {0}

abbrev pub Verifies : FilePath → Result Bool → Run → Type 0
Verifies w (ok true) s = Missed w s
Verifies w _ s = Unit {0}

module _ (os : Os) (w : FilePath) where
  pub conditional_delete_marker-Deletes :
      (bytes : List ℕ)
      → Ensures (λ s. Unit {0}) (conditional_delete_marker os w bytes) (Deletes w bytes)
  unfolding conditional_delete_marker delete_matching ◌>>=◌ os_read os_unlink call pure Once
  conditional_delete_marker-Deletes bytes = record {
    at = λ s v. go s (first os max_marker_read_bytes (os.content s.log (marker_path w)));
  }
    where
      unlinked_lem :
          (t : Run) (r : Reply)
          → ((log : Log) × (t.log ≡ read (marker_path w) (some bytes) ∷ log))
          → Deletes w bytes
              (ok (is_done os r))
              (record t { log = unlinked (marker_path w) r ∷ t.log })
      unlinked_lem t done h = record { happened = inl (refl, h) }
      unlinked_lem t already_exists h = tt
      unlinked_lem t not_found h = tt
      unlinked_lem t failed h = tt

      go :
          (s : Run) (seen : Option (List ℕ))
          → Deletes w bytes
              (delete_matching os w bytes seen
                (record s { log = read (marker_path w) seen ∷ s.log })).0
              (delete_matching os w bytes seen
                (record s { log = read (marker_path w) seen ∷ s.log })).1
      go s none = tt
      go s (some raw) = elim (Bool-cases (raw == bytes)) [
        | inl e ↦ rw e (
            unlinked_lem (record s { log = read (marker_path w) (some raw) ∷ s.log })
              (os.unlink (read (marker_path w) (some raw) ∷ s.log) (marker_path w))
              (
                s.log,
                ap (λ b. read (marker_path w) (some b) ∷ s.log) ((list_eq.beq_iff raw bytes).0 e),
              ))
        | inr e ↦ rw e tt
      ]

  pub verify_marker_absent-Verifies :
      Ensures (λ s. Unit {0}) (verify_marker_absent os w) (Verifies w)
  unfolding verify_marker_absent ◌>>=◌ os_stat call pure Once
  verify_marker_absent-Verifies = record { at = λ s v. go s (os.stat s.log (marker_path w)) }
    where
      go :
          (s : Run) (r : StatReply)
          → Verifies w (ok (is_missing os r)) (record s { log = statted (marker_path w) r ∷ s.log })
      go s missing = record { happened = inl refl }
      go s stat_failed = tt
      go s (found x) = tt
