-- ===== src/RawGuard/Controls.antt =====
-- `_controls_scan`: the loop over its stack against a search of the whole document.
use arjim.Base.{
  ℕ, zero, suc, pred, ◌+◌, ◌<◌, ◌≡◌, refl, ap, ◌∙◌, Bool, true, false, ◌||◌, Option, none, some,
  List, [], ◌∷◌, arith, if◌then◌else◌, any, Bool-cases, inl, inr,
}
use arjim.Json.{
  Json, Items, Fields, null, bool, int, negative, float, str, arr, obj, nil, cons, end, field, size,
  size_items, size_fields,
}
use arjim.Errors.{ok}
use arjim.RawGuard.{
  control_result, scan_result, has_control, push_items, push_fields, visit, stack_loop,
  controls_scan,
}

-- A prohibited control stands in a member name or in a text of the document.
unfoldable mutual
  pub tainted : Json → Bool
  tainted null = false
  tainted (bool b) = false
  tainted (int n) = false
  tainted (negative n) = false
  tainted (float s) = false
  tainted (str s) = has_control s
  tainted (arr xs) = tainted_items xs
  tainted (obj fs) = tainted_fields fs

  pub tainted_items : Items → Bool
  tainted_items nil = false
  tainted_items (cons x xs) = tainted x || tainted_items xs

  pub tainted_fields : Fields → Bool
  tainted_fields end = false
  tainted_fields (field name v fs) = has_control name || (tainted v || tainted_fields fs)

abbrev total : List Json → ℕ
total [] = 0
total (x ∷ xs) = size x + total xs

-- What a visit of a node with `n` nodes below it, tainted or not, leaves of the stack.
abbrev Visited : Bool → ℕ → List Json → Option (List Json) → Type 0
Visited taint n stack none = taint ≡ true
Visited taint n stack (some rest) =
    (total rest ≡ n + total stack) × (any tainted rest ≡ (taint || any tainted stack))

push_items-Visited :
    (xs : Items) (stack : List Json)
    → Visited (tainted_items xs) (size_items xs) stack (some (push_items xs stack))
unfolding push_items tainted size
push_items-Visited nil stack = (omega arith, refl)
push_items-Visited (cons x xs) stack = ground (arith, push_items-Visited xs (x ∷ stack))

-- A value that was pushed first counts with the node.
Visited-push :
    (t : Bool) (n : ℕ) (v : Json) (stack : List Json) (r : Option (List Json))
    → Visited t n (v ∷ stack) r
    → Visited (tainted v || t) (size v + n) stack r
Visited-push t n v stack none h = ground arith
Visited-push t n v stack (some rest) h = ground arith

push_fields-Visited :
    (fs : Fields) (stack : List Json)
    → Visited (tainted_fields fs) (size_fields fs) stack (push_fields fs stack)
unfolding push_fields tainted size
push_fields-Visited end stack = (omega arith, refl)
push_fields-Visited (field name v fs) stack = elim (Bool-cases (has_control name)) [
  | inl e ↦ rw (e, ◌||◌) refl
  | inr e ↦
      rw (e, ◌||◌)
        (Visited-push (tainted_fields fs) (size_fields fs) v stack (push_fields fs (v ∷ stack))
          (push_fields-Visited fs (v ∷ stack)))
]

visit-Visited :
    (node : Json) (stack : List Json)
    → Visited (tainted node) (pred (size node)) stack (visit node stack)
unfolding visit tainted size
visit-Visited (obj fs) stack = push_fields-Visited fs stack
visit-Visited (arr xs) stack = push_items-Visited xs stack
visit-Visited (str s) stack = elim (Bool-cases (has_control s)) [
  | inl e ↦ rw e refl
  | inr e ↦ rw (e, ◌||◌) (omega arith, refl)
]
visit-Visited _ stack = (omega arith, refl)

size-pos : (d : Json) → 0 < size d
unfolding size
size-pos null = omega arith
size-pos _ = omega arith

-- One round of the loop, from what the visit left and what the rest of the loop does.
round-any :
    (fuel : ℕ) (node : Json) (stack : List Json) (r : Option (List Json))
    → visit node stack ≡ r
    → Visited (tainted node) (pred (size node)) stack r
    → total (node ∷ stack) < suc fuel
    → ((rest : List Json) → total rest < fuel → stack_loop fuel rest ≡ some (any tainted rest))
    → stack_loop (suc fuel) (node ∷ stack) ≡ some (tainted node || any tainted stack)
unfolding stack_loop
round-any fuel node stack none e v h ih = rw (e, stack_loop, v, ◌||◌) refl
round-any fuel node stack (some rest) e v h ih =
    rw (e, stack_loop) (ih rest (omega (arith, v.0, size-pos node)) ∙ ap some v.1)

-- With more fuel than nodes on the stack, the loop ends and finds exactly what there is.
stack_loop-any :
    (fuel : ℕ) (stack : List Json)
    → total stack < fuel
    → stack_loop fuel stack ≡ some (any tainted stack)
unfolding stack_loop
stack_loop-any zero stack h = elim h [ ]
stack_loop-any (suc fuel) [] h = refl
stack_loop-any (suc fuel) (node ∷ stack) h =
    round-any fuel node stack (visit node stack) refl (visit-Visited node stack) h
      (stack_loop-any fuel)

-- `_controls_scan` ends on every document, never for lack of fuel, and rejects it exactly if a prohibited control stands
-- in one of its names or texts, at any depth.
pub controls_scan-tainted :
    (d : Json) → controls_scan d ≡ ok (if tainted d then some control_result else none)
unfolding controls_scan scan_result
controls_scan-tainted d =
    rw (stack_loop-any (suc (size d)) (d ∷ []) (omega arith), controls_scan) (ground arith)
