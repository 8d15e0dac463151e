-- ===== src/Telemetry/Traces.antt =====
-- tracing_otel.rs: that a trace goes on across a call of another service.
use jwt_service_app.Base.{
  ℕ, ◌≡◌, refl, sym, ap, subst, ◌∙◌, Bool, false, Option, Option-cases, none, some, List, [], ◌∷◌,
  any, inl, inr, arith,
}
use mathlib.Core.List.{Memᴰ}
use jwt_service_app.Base.Text.{Text, text_eq, text_eq_refl}
use jwt_service_app.Auth.Validators.{to_str}
use jwt_service_app.Telemetry.Propagation.{
  HeaderMaps, Propagator, get, set, set_all, value_text, insert_value, extract_parent_context,
  inject_context,
}

module _ (h : HeaderMaps) where
  abbrev is_name : Text → Option Text → Bool
  is_name name none = false
  is_name name (some other) = text_eq name other

  -- Whether one of the entries has this name.
  abbrev pub is_named : Text → List (Text × Text) → Bool
  is_named name entries = any (λ (entry : Text × Text). is_name name (h.name_of entry.0)) entries

  -- A key and a value that are those of a header, which is read as it was written.
  pub record IsHeader (key value : Text) : Type 0 where
    pub name : Text
    pub bytes : List ℕ
    pub named : h.name_of key ≡ some name
    pub valued : h.value_of value ≡ some bytes
    pub readable : to_str bytes ≡ some value

  -- Entries that are headers with names of their own.
  pub data AreHeaders : List (Text × Text) → Type 0 where
    no_headers : AreHeaders []
    one_more :
        {key value : Text} {entries : List (Text × Text)} (header : IsHeader key value)
        → is_named header.name entries ≡ false
        → AreHeaders entries
        → AreHeaders ((key, value) ∷ entries)

  insert_value-other :
      (name other : Text) (value : Option (List ℕ)) (headers : h.HeaderMap)
      → text_eq name other ≡ false
      → h.lookup name (insert_value h other value headers) ≡ h.lookup name headers
  insert_value-other name other none headers differ = refl
  insert_value-other name other (some value) headers differ =
      h.insert_law name other value headers ∙ rw differ refl

  -- An entry with another name leaves a header alone.
  set-other :
      (name key value : Text) (headers : h.HeaderMap)
      → is_name name (h.name_of key) ≡ false
      → h.lookup name (set h key value headers) ≡ h.lookup name headers
  unfolding set
  set-other name key value headers differ = elim (Option-cases (h.name_of key)) [
    | inl no_name ↦ rw (no_name, set) refl
    | inr (other, named) ↦
        rw (named, set)
          (insert_value-other name other (h.value_of value) headers (rw named at differ))
  ]

  set_all-other :
      (name : Text) (entries : List (Text × Text)) (headers : h.HeaderMap)
      → is_named name entries ≡ false
      → h.lookup name (set_all h entries headers) ≡ h.lookup name headers
  unfolding set_all
  set_all-other name [] headers differ = refl
  set_all-other name ((key, value) ∷ entries) headers differ =
      set_all-other name entries (set h key value headers) (ground (arith, differ))
      ∙ set-other name key value headers (ground (arith, differ))

  set-header :
      {key value : Text} (header : IsHeader key value) (headers : h.HeaderMap)
      → h.lookup header.name (set h key value headers) ≡ some header.bytes
  unfolding set
  set-header {key} {value} header headers =
      rw (header.named, set, header.valued)
        (h.insert_law header.name header.name header.bytes headers
          ∙ rw (text_eq_refl header.name) refl)

  abbrev IsWritten : List (Text × Text) → h.HeaderMap → Text × Text → Type 0
  IsWritten entries headers entry =
      (header : IsHeader entry.0 entry.1) × (h.lookup header.name (set_all h entries headers)
        ≡ some header.bytes)

  -- Each of the entries is found among the headers into which they were written.
  set_all-Memᴰ :
      {entries : List (Text × Text)} (are : AreHeaders entries) (headers : h.HeaderMap)
      {entry : Text × Text}
      → Memᴰ entry entries
      → IsWritten entries headers entry
  unfolding set_all
  set_all-Memᴰ no_headers headers m = elim m [ ]
  set_all-Memᴰ (one_more {key} {value} {entries} header own are) headers (Memᴰ.head same) =
      subst (IsWritten ((key, value) ∷ entries) headers) (sym same) (
        header,
        set_all-other header.name entries (set h key value headers) own ∙ set-header header headers,
      )
  set_all-Memᴰ (one_more {key} {value} {entries} header own are) headers (Memᴰ.tail m) =
      set_all-Memᴰ are (set h key value headers) m

  -- A carrier that holds what was injected is read back.
  abbrev pub ReadsBack : (p : Propagator) → p.Context → Type 0
  ReadsBack p context =
      (read : Text → Option Text) (all_keys : List Text)
      → ((entry : Text × Text) → Memᴰ entry (p.entries context) → read entry.0 ≡ some entry.1)
      → p.extract read all_keys ≡ context

  module _ (p : Propagator) where
    -- The other end of a call reads from its headers the context of the span in which it was made, and
    -- every header of the request that is none of the context's is as before. The entries of the
    -- context are headers with names of their own, and the propagator extracts a context from a carrier
    -- that holds the entries that it injects for it.
    pub extract_parent_context-inject_context :
        (context : p.Context) (builder : h.HeaderMap) (name : Text)
        → AreHeaders (p.entries context)
        → ReadsBack p context
        → is_named name (p.entries context) ≡ false
        → (extract_parent_context h p (inject_context h p context builder) ≡ context)
          × (h.lookup name (inject_context h p context builder) ≡ h.lookup name builder)
    unfolding extract_parent_context inject_context get
    extract_parent_context-inject_context context builder name are reads_back other = (
      reads_back _ _ (λ entry m.
          let (header, written) = set_all-Memᴰ are h.empty m in
          rw (header.named, get)
            (ap (value_text h) (
                h.replaced_law header.name header.bytes builder
                  (set_all h (p.entries context) h.empty) written)
              ∙ header.readable)),
      h.kept_law name builder (set_all h (p.entries context) h.empty)
          (set_all-other name (p.entries context) h.empty other ∙ h.empty_law name),
    )
