-- ===== src/RawGuard/Pipeline.antt =====
-- `guard`: exactly which inputs pass all the steps, and what is not caught.
use arjim.Base.{
  ℕ, ◌≤◌, ◌≡◌, refl, ◌↔◌, Bool, false, Option, none, some, List, [], ◌∷◌, arith, leb, leb→le,
  if◌then◌else◌, any, All, String, Bool-cases, inl, inr, length, contains, nat_eq, string_eq,
  Option-cases,
}
use arjim.Json.{null}
use arjim.Vocabulary.{Phase, GuardCode}
use arjim.Errors.{ok}
use arjim.Runtime.{Runtime, HookCall, pairs, constant, Loaded, document, decode_error, other_error}
use arjim.RawGuard.{
  RawGuardResult, passed, reject, clean, text_controls_scan, guard, guard_text, guard_bytes,
  bom_phase, hook, first_raise, distinct, from_loaded, decode_with_hooks, after_decode,
  is_prohibited_control, max_read_bytes, starts, utf8_bom, utf16_boms, utf32_boms, terminated,
}
use arjim.RawGuard.Depth.{brackets, peak, depth_scan-verdict}
use arjim.RawGuard.Controls.{tainted, controls_scan-tainted}

-- No name stands twice in the list.
abbrev pub NoRepeat : List String → Type 0
NoRepeat [] = Unit
NoRepeat (n ∷ ns) = (contains ns n ≡ false) × NoRepeat ns

length-distinct-le : (ns : List String) → length (distinct ns) ≤ length ns
length-distinct-le [] = omega arith
length-distinct-le (n ∷ ns) = elim (Bool-cases (contains ns n)) [
  | inl e ↦ rw e (omega (arith, length-distinct-le ns))
  | inr e ↦ rw e (omega (arith, length-distinct-le ns))
]

distinct-NoRepeat : (ns : List String) → (length (distinct ns) ≡ length ns) ↔ NoRepeat ns
distinct-NoRepeat [] = ((λ _. tt), (λ _. refl))
distinct-NoRepeat (n ∷ ns) = elim (Bool-cases (contains ns n)) [
  | inl e ↦ rw e ((λ h. absurd (omega (arith, length-distinct-le ns))), (λ h. cc (h.0)))
  | inr e ↦ rw e (
    (λ h. (refl, (distinct-NoRepeat ns).0 (omega arith))),
    (λ h. ground (arith, (distinct-NoRepeat ns).1 h.1)),
  )
]

-- A hook call that does not raise: an object with no repeated name.
abbrev pub Quiet : HookCall → Type 0
Quiet (pairs names) = NoRepeat names
Quiet constant = ⊥

hook-Quiet : (c : HookCall) → (hook c ≡ none) ↔ Quiet c
unfolding hook
hook-Quiet (pairs names) = ground (arith, distinct-NoRepeat names)
hook-Quiet constant = ((λ h. cc), (λ h. absurd h))

first_raise-Quiet : (cs : List HookCall) → (first_raise cs ≡ none) ↔ All Quiet cs
unfolding first_raise
first_raise-Quiet [] = ((λ _. tt), (λ _. refl))
first_raise-Quiet (c ∷ cs) = elim (Option-cases (hook c)) [
  | inl e ↦
      rw (e, first_raise)
        (
          (λ h. ((hook-Quiet c).0 e, (first_raise-Quiet cs).0 h)),
          (λ h. (first_raise-Quiet cs).1 h.1),
        )
  | inr (r, e) ↦ rw (e, first_raise) ((λ h. cc), (λ h. cc (e, (hook-Quiet c).1 h.0)))
]

-- No byte-order mark of UTF-8, UTF-16 or UTF-32 stands in front.
abbrev pub HasNoBom : List ℕ → Type 0
HasNoBom raw =
    (starts utf8_bom raw ≡ false)
    × (any (λ bom. starts bom raw) utf32_boms ≡ false)
    × (any (λ bom. starts bom raw) utf16_boms ≡ false)

bom_phase-HasNoBom : (raw : List ℕ) → (bom_phase raw ≡ none) ↔ HasNoBom raw
unfolding bom_phase
bom_phase-HasNoBom raw =
    go (starts utf8_bom raw) (any (λ bom. starts bom raw) utf32_boms)
      (any (λ bom. starts bom raw) utf16_boms)
  where
    go :
        (a b c : Bool)
        → ((if a
              then some (reject Phase.utf8 GuardCode.utf8_bom_prefix)
              else if b
              then some (reject Phase.utf8 GuardCode.utf8_bom_prefix)
              else if c
              then some (reject Phase.utf8 GuardCode.utf8_bom_prefix)
              else none)
            ≡ none)
          ↔ ((a ≡ false) × (b ≡ false) × (c ≡ false))
    go a b c = ground arith

-- What the controls step asks: a decoded document has no prohibited control in its names and
-- texts; of a text that is no JSON (and of the document `null`) the text itself has none.
abbrev pub CleanContent : List ℕ → Loaded → Type 0
CleanContent text (document d) = elim d as (λ _. Type 0) [
  | null ↦ any is_prohibited_control text ≡ false
  | _ ↦ tainted d ≡ false
]
CleanContent text decode_error = any is_prohibited_control text ≡ false
CleanContent text other_error = ⊥

after_decode-clean :
    (text : List ℕ) (l : Loaded)
    → (after_decode text (from_loaded l) ≡ ok clean) ↔ CleanContent text l
unfolding after_decode from_loaded text_controls_scan
after_decode-clean text (document null) = ground arith
after_decode-clean text (document d) = ground (arith, controls_scan-tainted d)
after_decode-clean text decode_error = ground arith
after_decode-clean text other_error = ((λ h. cc), (λ h. absurd h))

-- A raw marker that the guard lets through.
pub record Admitted (rt : Runtime) (raw : List ℕ) : Type 0 where
  pub fits : length raw ≤ max_read_bytes
  pub no_bom : HasNoBom raw
  pub text : List ℕ
  pub decoded : rt.decode_utf8 raw ≡ some text
  pub shallow : peak 0 (brackets text) ≤ 8
  pub quiet : All Quiet (rt.hook_calls text)
  pub content : CleanContent text (rt.loads text)

first_raise-rejects :
    (cs : List HookCall) (r : RawGuardResult) → first_raise cs ≡ some r → passed r ≡ false
unfolding first_raise
first_raise-rejects [] r h = cc
first_raise-rejects (pairs names ∷ cs) r h = ground (arith, first_raise-rejects cs r)
first_raise-rejects (constant ∷ cs) r h = ground arith

bom_phase-rejects : (raw : List ℕ) (r : RawGuardResult) → bom_phase raw ≡ some r → passed r ≡ false
unfolding bom_phase
bom_phase-rejects raw r h = ground arith

terminated-rejects :
    (text : List ℕ) (r : RawGuardResult)
    → passed r ≡ false
    → after_decode text (ok (terminated r)) ≡ ok clean
    → ⊥
unfolding after_decode
terminated-rejects text r h e = ground arith

module _ (rt : Runtime) where
  after_hooks-clean :
      (text : List ℕ)
      → (after_decode text (decode_with_hooks rt text) ≡ ok clean)
        ↔ (All Quiet (rt.hook_calls text) × CleanContent text (rt.loads text))
  unfolding decode_with_hooks
  after_hooks-clean text = elim (Option-cases (first_raise (rt.hook_calls text))) [
    | inl e ↦
        rw (e, decode_with_hooks)
          (
            (λ h. (
              (first_raise-Quiet (rt.hook_calls text)).0 e,
              (after_decode-clean text (rt.loads text)).0 h,
            )),
            (λ h. (after_decode-clean text (rt.loads text)).1 h.1),
          )
    | inr (r, e) ↦
        rw (e, decode_with_hooks)
          (
            (λ h.
                absurd
                  (terminated-rejects text r (first_raise-rejects (rt.hook_calls text) r e) h)),
            (λ h. cc (e, (first_raise-Quiet (rt.hook_calls text)).1 h.0)),
          )
  ]

  guard_text-clean :
      (text : List ℕ)
      → (guard_text rt text ≡ ok clean) ↔ (
          (peak 0 (brackets text) ≤ 8)
          × (All Quiet (rt.hook_calls text) × CleanContent text (rt.loads text)))
  unfolding guard_text
  guard_text-clean text = ground (arith, depth_scan-verdict text, after_hooks-clean text)

  guard_bytes-Admitted :
      (raw : List ℕ) (o : Option (List ℕ))
      → rt.decode_utf8 raw ≡ o
      → length raw ≤ max_read_bytes
      → HasNoBom raw
      → guard_bytes rt raw o ≡ ok clean
      → Admitted rt raw
  unfolding guard_bytes
  guard_bytes-Admitted raw none e fits bom h = ground arith
  guard_bytes-Admitted raw (some text) e fits bom h =
      let inner = (guard_text-clean text).0 h in
      record {
        fits = fits;
        no_bom = bom;
        text = text;
        decoded = e;
        shallow = inner.0;
        quiet = inner.1.0;
        content = inner.1.1;
      }

  passes-Admitted : (raw : List ℕ) → guard rt raw ≡ ok clean → Admitted rt raw
  unfolding guard
  passes-Admitted raw h = elim (Bool-cases (leb (length raw) max_read_bytes)) [
    | inl fits ↦ elim (Option-cases (bom_phase raw)) [
      | inl e ↦
          guard_bytes-Admitted raw (rt.decode_utf8 raw) refl (leb→le _ _ fits)
            ((bom_phase-HasNoBom raw).0 e) (ground arith)
      | inr (r, e) ↦ absurd (ground (arith, bom_phase-rejects raw r e))
    ]
    | inr e ↦ absurd (ground arith)
  ]

  Admitted-passes : (raw : List ℕ) → Admitted rt raw → guard rt raw ≡ ok clean
  unfolding guard guard_bytes
  Admitted-passes raw a = ground (
    arith,
    (bom_phase-HasNoBom raw).1 a.no_bom,
    (guard_text-clean a.text).1 (a.shallow, (a.quiet, a.content)),
  )

  -- `guard` passes an input on to the schema validation exactly if all of these hold: the input is at
  -- most 262,144 bytes long, has no byte-order mark, decodes as UTF-8, and nests its brackets at
  -- most 8 deep outside of strings; no object that `json.loads` reports to the hooks repeats a
  -- name, and no constant NaN or Infinity is reported; `json.loads` gives a document, or fails
  -- with a JSONDecodeError and with no other ValueError; a document other than null has no
  -- prohibited control in its names and texts, and otherwise the decoded text has none. Only what
  -- `json.loads` reads before an error reaches the hooks.
  pub guard-Admitted : (raw : List ℕ) → (guard rt raw ≡ ok clean) ↔ Admitted rt raw
  guard-Admitted raw = (passes-Admitted raw, Admitted-passes raw)
