-- ===== src/Dispatch/Posture.antt =====
-- workstream_dispatch/paseo_adapter.py: `validate_posture`, against what the command line tool
-- lists.
use arjim.Base.{
  String, Option, some, Bool, false, not, ◌&&◌, List, [], ◌∷◌, ◌++◌, ◌<>◌, if◌then◌else◌, ◌==◌,
  ◌!=◌, string_eq, contains, ltb, length, nat_eq,
}
use Prim.Native.Char.{code}
use arjim.Json.{
  Json, str, arr, obj, nil, Fields, field, end, get, get_or, truthy, is_dict, of_items,
}
use arjim.Errors.{Exn, Result, ok, err, ◌>>=◌}
use arjim.Runtime.{Runtime, to_str}
use arjim.Effects.{Os, M, pure, lift, ◌>>=◌ as ◌>>>=◌}
use arjim.Dispatch.Adapter.{
  PaseoAdapter, run_cli_json, PostureError, adapter_init_failed, unknown_model, unknown_mode,
  unknown_thinking, PostureValidation,
}

abbrev provider_name : String
provider_name = "opencode"

-- The `str` of each character, and the keys of a dict: what a loop over such a value gives.
characters : String → List Json
characters String.[] = []
characters (String.◌∷◌ c s) = str (String.◌∷◌ c String.[]) ∷ characters s

field_names : Fields → List Json
field_names end = []
field_names (field name v fs) = str name ∷ field_names fs

iterated : Json → Result (List Json)
unfolding characters field_names
iterated (arr items) = ok (of_items items)
iterated (obj fs) = ok (field_names fs)
iterated (str s) = ok (characters s)
iterated _ = err Exn.type_error

module _ (rt : Runtime) where
  texts : List Json → List String
  texts [] = []
  texts (t ∷ ts) = let rest = texts ts in if truthy t then to_str rt t ∷ rest else rest

  abbrev Models : Type 0
  Models = List String × List String

  model_id : Json → Json
  model_id m = get_or ("id" ∷ "Id" ∷ []) (str "") m

  -- The thinking options of the last model with the name are kept.
  options_of : String → Json → List String → Result (List String)
  unfolding model_id iterated texts
  options_of model m options =
      if to_str rt (model_id m) == model
      then iterated (get_or ("thinkingOptionIds" ∷ []) (arr nil) m) >>= (λ ts. ok (texts ts))
      else ok options

  add_model : Json → List String → List String
  unfolding model_id
  add_model m models = if truthy (model_id m) then models ++ to_str rt (model_id m) ∷ [] else models

  pub models_loop : String → List Json → Models → Result Models
  unfolding options_of add_model
  models_loop model [] found = ok found
  models_loop model (m ∷ ms) (models, options) =
      if not (is_dict m)
      then models_loop model ms (models, options)
      else (options_of model m options >>= λ chosen.
          models_loop model ms (add_model m models, chosen))

  pub models_of : String → Option Json → Result Models
  unfolding models_loop
  models_of model (some (arr items)) = models_loop model (of_items items) ([], [])
  models_of model _ = ok ([], [])

  -- `text.split(",")`, from the part that was read so far
  split_commas : String → String → List String
  split_commas part String.[] = part ∷ []
  split_commas part (String.◌∷◌ c s) =
      if code c == b','
      then part ∷ split_commas "" s
      else split_commas (part <> String.◌∷◌ c String.[]) s

  stripped : List String → List String
  stripped [] = []
  stripped (m ∷ ms) = let rest = stripped ms in if rt.strip m != "" then rt.strip m ∷ rest else rest

  abbrev Modes : Type 0
  Modes = List String × Json

  is_provider : Option Json → Bool
  is_provider (some (str s)) = s == provider_name
  is_provider _ = false

  modes_from : Json → List String
  unfolding split_commas stripped
  modes_from modes = if truthy modes then stripped (split_commas "" (to_str rt modes)) else []

  pub modes_loop : List Json → Modes
  unfolding is_provider modes_from
  modes_loop [] = ([], str "")
  modes_loop (p ∷ ps) =
      let rest = modes_loop ps in
      if is_dict p && is_provider (get "provider" p)
      then (modes_from (get_or ("modes" ∷ []) (str "") p), get_or ("defaultMode" ∷ []) (str "") p)
      else rest

  modes_of : Option Json → Modes
  unfolding modes_loop
  modes_of (some (arr items)) = modes_loop (of_items items)
  modes_of _ = ([], str "")

abbrev is_text : String → Json → Bool
is_text text (str s) = text == s
is_text text _ = false

checked : Bool → PostureError → List PostureError
checked bad e = if bad then e ∷ [] else []

unfoldable pub validated :
    String → String → String → List String × List String → List String × Json → PostureValidation
unfolding checked
validated model mode thinking (models, options) (modes, default_mode) = record {
  errors =
      checked (not (contains models model)) unknown_model
      ++ checked (not (contains modes mode) && not (is_text mode default_mode)) unknown_mode
      ++ checked (thinking != "" && not (contains options thinking) && ltb 1 (length options))
          unknown_thinking;
  available_models = models;
  available_modes = modes;
  default_mode = default_mode;
  thinking_options = options;
}

failed_init : PostureValidation
failed_init = record {
  errors = adapter_init_failed ∷ [];
  available_models = [];
  available_modes = [];
  default_mode = str "";
  thinking_options = [];
}

module _ (rt : Runtime) (os : Os) (adapter : PaseoAdapter) where
  pub validate_posture : String → String → String → M PostureValidation
  unfolding failed_init modes_of
  validate_posture model mode thinking =
      if adapter.init_error
      then pure failed_init
      else run_cli_json rt os adapter ("provider" ∷ "models" ∷ provider_name ∷ "--json" ∷ [])
        >>>= λ models_data. lift (models_of rt model models_data) >>>= λ models.
            run_cli_json rt os adapter ("provider" ∷ "ls" ∷ "--json" ∷ []) >>>= λ providers_data.
            pure (validated model mode thinking models (modes_of rt providers_data))
