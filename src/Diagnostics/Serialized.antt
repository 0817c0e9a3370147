-- ===== src/Diagnostics/Serialized.antt =====
-- The size bound of `serialize`.
use arjim.Base.{
  ap, sym, Bool, ℕ, ◌≤◌, ◌≡◌, refl, List, [], ◌∷◌, ◌++◌, map, length, arith, leb, leb→le,
  Bool-cases, inl, inr, ltb, length-map, length-append, ◌+◌,
}
use arjim.Json.{Json, int, arr, obj, end, field, to_items}
use arjim.Runtime.{Runtime}
use arjim.Diagnostics.{
  Diagnostic, Diagnostics, serialize, fit_items, item_to_dict, to_dict, bounded, counted,
  max_serialized_bytes,
}
use arjim.Diagnostics.Bounds.{bounded-IsBounded}

module _ (rt : Runtime) where
  abbrev pub Fits : List ℕ → Type 0
  Fits text = length (rt.encode_utf8 text) ≤ max_serialized_bytes

  -- What `serialize` returns: a document with a right count, of some items, within the bound.
  pub record Serialized (text : List ℕ) (most : ℕ) : Type 0 where
    pub items : List Json
    pub shape : text ≡ rt.dumps (counted items)
    pub few : length items ≤ most
    pub fits : Fits text

  fit_items-Serialized :
      (kept : List Json) (ds : List Diagnostic)
      → Fits (rt.dumps (counted kept))
      → Serialized (rt.dumps (counted (fit_items rt kept ds))) (length kept + length ds)
  unfolding fit_items
  fit_items-Serialized kept [] h = record {
    items = kept;
    shape = refl;
    few = omega arith;
    fits = h;
  }
  fit_items-Serialized kept (d ∷ ds) h = elim (Bool-cases (too_big)) [
    | inl e ↦ rw e (record { items = kept; shape = refl; few = omega arith; fits = h })
    | inr e ↦ rw e (
        let r = fit_items-Serialized candidate ds (ground arith) in
        record {
          items = r.items;
          shape = r.shape;
          few = omega (arith, r.few, length-append kept (item_to_dict d ∷ []));
          fits = r.fits;
        })
  ]
    where
      candidate : List Json
      candidate = kept ++ item_to_dict d ∷ []

      too_big : Bool
      too_big = ltb max_serialized_bytes (length (rt.encode_utf8 (rt.dumps (counted candidate))))

  kept_items : Diagnostics → List Json
  kept_items d = map item_to_dict (bounded d).items

  kept_items-few : (d : Diagnostics) → length (kept_items d) ≤ 32
  unfolding kept_items
  kept_items-few d =
      rw (length-map item_to_dict (bounded d).items)
        (omega (arith, (bounded-IsBounded d).counted, (bounded-IsBounded d).few))

  to_dict-counted : (d : Diagnostics) → to_dict d ≡ counted (kept_items d)
  unfolding to_dict kept_items
  to_dict-counted d =
      ap (λ n. obj (field "count" (int n) (field "items" (arr (to_items (kept_items d))) end)))
        (sym (length-map item_to_dict (bounded d).items))

  -- If the document with no items is within 65,536 bytes, then so is every serialized list of
  -- diagnostics, and it is a document of at most 32 items whose count is their number.
  pub serialize-Serialized :
      (d : Diagnostics) → Fits (rt.dumps (counted [])) → Serialized (serialize rt d) 32
  unfolding serialize
  serialize-Serialized d h = elim (Bool-cases fits_whole) [
    | inl e ↦ rw e (record {
      items = kept_items (bounded d);
      shape = ap rt.dumps (to_dict-counted (bounded d));
      few = kept_items-few (bounded d);
      fits = leb→le _ _ e;
    })
    | inr e ↦ rw e (
        let r = fit_items-Serialized [] (bounded d).items h in
        record {
          items = r.items;
          shape = r.shape;
          few = omega (arith, r.few, (bounded-IsBounded d).counted, (bounded-IsBounded d).few);
          fits = r.fits;
        })
  ]
    where
      fits_whole : Bool
      fits_whole =
          leb (length (rt.encode_utf8 (rt.dumps (to_dict (bounded d))))) max_serialized_bytes
