-- ===== src/Tests/TraceTests.antt =====
-- Runs of the propagation of trace contexts in tracing_otel.rs.
use jwt_service_app.Base.{
  ℕ, ◌≡◌, refl, Bool-cases, inl, inr, Option, none, some, List, [], ◌∷◌, ◌++◌, map, if◌then◌else◌,
}
use mathlib.Core.List.{Memᴰ}
use jwt_service_app.Base.Text.{Text, codes, text_eq, to_ascii_lowercase}
use jwt_service_app.Auth.Validators.{to_str}
use jwt_service_app.Env.{unwrap_or}
use jwt_service_app.Telemetry.Propagation.{
  HeaderMaps, Propagator, set, extract_parent_context, inject_context,
}
use jwt_service_app.Telemetry.Traces.{
  AreHeaders, no_headers, one_more, extract_parent_context-inject_context,
}

-- Headers as a list, of which the first with a name counts.
abbrev Pairs : Type 0
Pairs = List (Text × List ℕ)

abbrev find_pair : Text → Pairs → Option (List ℕ)
find_pair name [] = none
find_pair name ((other, value) ∷ pairs) =
    if text_eq name other then some value else find_pair name pairs

find_pair-some :
    (name : Text) (value : List ℕ) (older given : Pairs)
    → find_pair name given ≡ some value
    → find_pair name (given ++ older) ≡ some value
find_pair-some name value older [] found = absurd (cc found)
find_pair-some name value older ((other, v) ∷ given) found =
    elim (Bool-cases (text_eq name other)) [
      | inl same ↦ rw (same) (rw same at found)
      | inr differ ↦ rw (differ) (find_pair-some name value older given (rw differ at found))
    ]

find_pair-none :
    (name : Text) (older given : Pairs)
    → find_pair name given ≡ none
    → find_pair name (given ++ older) ≡ find_pair name older
find_pair-none name older [] missing = refl
find_pair-none name older ((other, v) ∷ given) missing = elim (Bool-cases (text_eq name other)) [
  | inl same ↦ absurd (cc (rw same at missing))
  | inr differ ↦ rw (differ) (find_pair-none name older given (rw differ at missing))
]

abbrev listed : HeaderMaps
listed = record {
  name_of = λ key. some (to_ascii_lowercase key);
  value_of = to_str;
  HeaderMap = Pairs;
  empty = [];
  lookup = find_pair;
  names = map (λ (pair : Text × List ℕ). pair.0);
  insert = λ name value pairs. (name, value) ∷ pairs;
  replace = λ older given. given ++ older;
  empty_law = λ name. refl;
  insert_law = λ name other value pairs. refl;
  replaced_law = find_pair-some;
  kept_law = find_pair-none;
}

-- A context is its `traceparent`.
abbrev w3c : Propagator
w3c = record {
  Context = Text;
  entries = λ parent. (codes "traceparent", parent) ∷ (codes "tracestate", []) ∷ [];
  extract = λ read keys. unwrap_or [] (read (codes "traceparent"));
}

abbrev parent : Text
parent = codes "00-ab-cd-01"

abbrev plain_request : Pairs
plain_request = (codes "traceparent", codes "old") ∷ (codes "accept", codes "*") ∷ []

parent-AreHeaders : AreHeaders listed (w3c.entries parent)
unfolding to_str text_eq to_ascii_lowercase
parent-AreHeaders =
    one_more
      (record {
        name = codes "traceparent";
        bytes = parent;
        named = refl;
        valued = refl;
        readable = refl;
      })
      refl
      (one_more
        (record {
          name = codes "tracestate";
          bytes = [];
          named = refl;
          valued = refl;
          readable = refl;
        })
        refl no_headers)

extract_parent_context-inject_context_example :
    (extract_parent_context listed w3c (inject_context listed w3c parent plain_request) ≡ parent)
    × (find_pair (codes "accept") (inject_context listed w3c parent plain_request)
        ≡ find_pair (codes "accept") plain_request)
unfolding to_str text_eq to_ascii_lowercase
extract_parent_context-inject_context_example =
    extract_parent_context-inject_context listed w3c parent plain_request (codes "accept")
      parent-AreHeaders
      (λ read keys found. rw (found (codes "traceparent", parent) (Memᴰ.head refl)) refl) refl

-- A value with a line break is no value of a header, and is left out.
broken : set listed (codes "traceparent") (codes "a\nb") plain_request ≡ plain_request
unfolding set to_str
broken = refl
