-- ===== src/Telemetry/Propagation.antt =====
-- tracing_otel.rs: the context of a trace in the headers of a request, read from one that comes in
-- (`HeaderExtractor`, `extract_parent_context`) and written into one that goes out (`HeaderInjector`,
-- `inject_context`). The maps of headers are the crate http's and the propagator opentelemetry's: both
-- are parameters.
use jwt_service_app.Base.{ℕ, Option, none, some, List, [], ◌∷◌, ◌≡◌, if◌then◌else◌}
use jwt_service_app.Base.Text.{Text, text_eq}
use jwt_service_app.Auth.Validators.{to_str}

-- `HeaderName::from_bytes`, `HeaderValue::from_str` and `HeaderMap`, with one value for a name. The laws
-- say what a lookup gives after each operation.
pub record HeaderMaps : Type 1 where
  pub name_of : Text → Option Text
  pub value_of : Text → Option (List ℕ)
  pub HeaderMap : Type 0
  pub empty : HeaderMap
  pub lookup : Text → HeaderMap → Option (List ℕ)
  pub names : HeaderMap → List Text
  pub insert : Text → List ℕ → HeaderMap → HeaderMap
  -- `RequestBuilder::headers`: the headers of the request, then those that replace them
  pub replace : HeaderMap → HeaderMap → HeaderMap
  pub empty_law : (name : Text) → lookup name empty ≡ none
  pub insert_law :
      (name other : Text) (value : List ℕ) (headers : HeaderMap)
      → lookup name (insert other value headers)
        ≡ (if text_eq name other then some value else lookup name headers)
  pub replaced_law :
      (name : Text) (value : List ℕ) (headers given : HeaderMap)
      → lookup name given ≡ some value
      → lookup name (replace headers given) ≡ some value
  pub kept_law :
      (name : Text) (headers given : HeaderMap)
      → lookup name given ≡ none
      → lookup name (replace headers given) ≡ lookup name headers

-- The global propagator: the entries that `inject_context` sets for a context, in their order, and
-- what `extract` makes of a carrier, which it reads by `get` and `keys`.
pub record Propagator : Type 1 where
  pub Context : Type 0
  pub entries : Context → List (Text × Text)
  pub extract : (Text → Option Text) → List Text → Context

module _ (h : HeaderMaps) where
  abbrev pub value_text : Option (List ℕ) → Option Text
  value_text none = none
  value_text (some value) = to_str value

  -- `HeaderExtractor::get`: a key that is no name of a header has no value.
  unfoldable pub get : h.HeaderMap → Text → Option Text
  unfolding to_str
  get headers key = elim (h.name_of key) [
    | none ↦ none
    | some name ↦ value_text (h.lookup name headers)
  ]

  unfoldable pub keys : h.HeaderMap → List Text
  keys headers = h.names headers

  abbrev pub insert_value : Text → Option (List ℕ) → h.HeaderMap → h.HeaderMap
  insert_value name none headers = headers
  insert_value name (some value) headers = h.insert name value headers

  -- `HeaderInjector::set`: an entry that is no header is left out.
  unfoldable pub set : Text → Text → h.HeaderMap → h.HeaderMap
  set key value headers = elim (h.name_of key) [
    | none ↦ headers
    | some name ↦ insert_value name (h.value_of value) headers
  ]

  unfoldable pub set_all : List (Text × Text) → h.HeaderMap → h.HeaderMap
  unfolding set
  set_all [] headers = headers
  set_all ((key, value) ∷ entries) headers = set_all entries (set key value headers)

  module _ (p : Propagator) where
    unfoldable pub extract_parent_context : h.HeaderMap → p.Context
    unfolding get keys
    extract_parent_context headers = p.extract (get headers) (keys headers)

    -- `context` is the one of the current span, `builder` the headers of the outgoing request.
    unfoldable pub inject_context : p.Context → h.HeaderMap → h.HeaderMap
    unfolding set_all
    inject_context context builder = h.replace builder (set_all (p.entries context) h.empty)
