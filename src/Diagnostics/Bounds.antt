-- ===== src/Diagnostics/Bounds.antt =====
-- The caps of diagnostics.py: at most 32 items, and every text within its limit.
use arjim.Base.{
  ℕ, zero, suc, ◌≤◌, min, String, ◌≡◌, refl, ap, ◌∙◌, Option, none, some, List, [], ◌∷◌, map,
  length, take, All, str_length, str_length-take, length-take-le, length-map, arith, ◌==◌,
  string_eq, Bool-cases, inl, inr,
}
use arjim.Vocabulary.{Phase, Code, phase_text, code_text}
use arjim.Runtime.{SchemaError}
use arjim.Diagnostics.{
  Diagnostic, Diagnostics, truncate, truncate_optional, bound_item, bounded, sort_errors,
  insert_error, normalize, diagnostic, code_for_validator, safe_path_marker, max_diagnostic_count,
  max_label_length, max_affected_local_path_length, max_safe_path_length,
}

-- The texts of phases and codes are within the limits at which `bounded` cuts them.
pub phase_text-fits : (p : Phase) → str_length (phase_text p) ≤ 16
unfolding phase_text
phase_text-fits Phase.read = omega arith
phase_text-fits _ = omega arith

pub code_text-fits : (c : Code) → str_length (code_text c) ≤ 32
unfolding code_text
code_text-fits Code.read_limit = omega arith
code_text-fits _ = omega arith

length-truncate : (s : String) (n : ℕ) → str_length (truncate s n) ≤ n
unfolding truncate
length-truncate s n = ground (arith, str_length-take n s)

abbrev OptionFits : Option String → ℕ → Type 0
OptionFits none n = Unit
OptionFits (some s) n = str_length s ≤ n

truncate_optional-Fits : (o : Option String) (n : ℕ) → OptionFits (truncate_optional o n) n
unfolding truncate_optional
truncate_optional-Fits none n = tt
truncate_optional-Fits (some s) n = elim (Bool-cases (s == "")) [
  | inl e ↦ rw e tt
  | inr e ↦ rw e (length-truncate s n)
]

pub record ItemFits (d : Diagnostic) : Type 0 where
  pub phase_fits : str_length (phase_text d.phase) ≤ 16
  pub code_fits : str_length (code_text d.code) ≤ 32
  pub safe_path_fits : str_length d.safe_path ≤ max_safe_path_length
  pub label_fits : OptionFits d.label max_label_length
  pub path_fits : OptionFits d.affected_local_path max_affected_local_path_length

bound_item-ItemFits : (d : Diagnostic) → ItemFits (bound_item d)
unfolding bound_item
bound_item-ItemFits d = record {
  phase_fits = phase_text-fits d.phase;
  code_fits = code_text-fits d.code;
  safe_path_fits = length-truncate d.safe_path max_safe_path_length;
  label_fits = truncate_optional-Fits d.label max_label_length;
  path_fits = truncate_optional-Fits d.affected_local_path max_affected_local_path_length;
}

-- What the result schema asks of a diagnostic list.
pub record IsBounded (d : Diagnostics) : Type 0 where
  pub counted : d.count ≡ length d.items
  pub few : d.count ≤ max_diagnostic_count
  pub items_fit : All ItemFits d.items

All-bound_item : (ds : List Diagnostic) → All ItemFits (map bound_item ds)
All-bound_item [] = tt
All-bound_item (d ∷ ds) = (bound_item-ItemFits d, All-bound_item ds)

-- Whatever the diagnostics, `bounded` returns a list with the right count, of at most 32 items,
-- in which every text is within its limit.
pub bounded-IsBounded : (d : Diagnostics) → IsBounded (bounded d)
unfolding bounded
bounded-IsBounded d = record {
  counted = refl;
  few =
      rw (length-map bound_item (take max_diagnostic_count d.items))
        (length-take-le max_diagnostic_count d.items);
  items_fit = All-bound_item (take max_diagnostic_count d.items);
}

length-insert_error :
    (e : SchemaError) (es : List SchemaError) → length (insert_error e es) ≡ suc (length es)
unfolding insert_error
length-insert_error e [] = refl
length-insert_error e (f ∷ fs) = ground (arith, length-insert_error e fs)

length-sort_errors : (es : List SchemaError) → length (sort_errors es) ≡ length es
unfolding sort_errors
length-sort_errors [] = refl
length-sort_errors (e ∷ es) =
    length-insert_error e (sort_errors es) ∙ ap suc (length-sort_errors es)

length-take : {A : Type 0} (n : ℕ) (xs : List A) → length (take n xs) ≡ min n (length xs)
length-take zero xs = omega arith
length-take (suc n) [] = omega arith
length-take (suc n) (x ∷ xs) = omega (arith, length-take n xs)

abbrev pub OnlyOf : Phase → Code → List Diagnostic → Type 0
OnlyOf p c = All (λ d.
    (d.phase ≡ p)
    × (d.code ≡ c)
    × (d.label ≡ none)
    × (d.affected_local_path ≡ none)
    × (d.safe_path ≡ safe_path_marker))

normalized_items :
    (p : Phase) (es : List SchemaError)
    → OnlyOf p Code.schema_invalid (map (λ e. diagnostic p (code_for_validator e.validator)) es)
unfolding code_for_validator
normalized_items p [] = tt
normalized_items p (e ∷ es) = ((refl, refl, refl, refl, refl), normalized_items p es)

-- `normalize` keeps one item for each error up to 32, and nothing of an error but its existence:
-- each item has the given phase, the one schema code, the fixed path, no label and no local path.
pub normalize-OnlyOf :
    (p : Phase) (es : List SchemaError)
    → ((normalize p es).count ≡ min 32 (length es))
      × ((normalize p es).count ≡ length (normalize p es).items)
      × OnlyOf p Code.schema_invalid (normalize p es).items
unfolding normalize
normalize-OnlyOf p es = (
  length-map _ (take 32 (sort_errors es))
      ∙ length-take 32 (sort_errors es)
      ∙ ap (min 32) (length-sort_errors es),
  refl,
  normalized_items p (take 32 (sort_errors es)),
)
