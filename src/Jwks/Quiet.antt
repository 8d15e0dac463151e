-- ===== src/Jwks/Quiet.antt =====
-- jwk.rs: the parts of `public_key` that change nothing but the clock.
use jwt_service_app.Base.{
  ℕ, ◌≡◌, ◌⊎◌, refl, ◌∙◌, Bool, true, false, Bool-cases, Option, none, some, List, inl, inr,
  if◌then◌else◌,
}
use jwt_service_app.Base.Text.{Text}
use jwt_service_app.Jwks.Service.{Jwk, Remote, Settings, Service, pure}
use jwt_service_app.Jwks.Cache.{
  lookup_fresh, serve_stale, allow_refresh_on_miss, recent, find_fresh, find_stale, entry_recent,
}

-- Nothing has changed but the clock.
pub record IsQuiet (s s' : Service) : Type 0 where
  pub cache : s'.cache ≡ s.cache
  pub requests : s'.requests ≡ s.requests

pub IsQuiet-trans : {s s' s'' : Service} → IsQuiet s s' → IsQuiet s' s'' → IsQuiet s s''
IsQuiet-trans q q' = record { cache = q'.cache ∙ q.cache; requests = q'.requests ∙ q.requests }

module _ (r : Remote) (c : Settings) where
  pub recent-IsQuiet :
      (limit : ℕ) (at : Option ℕ) (s : Service) → IsQuiet s (recent r c limit at s).1
  recent-IsQuiet limit none s = record { cache = refl; requests = refl }
  recent-IsQuiet limit (some at) s = record { cache = refl; requests = refl }

  pub find_fresh-IsQuiet :
      (kid : Text) (e : Option (List Jwk × ℕ)) (s : Service) → IsQuiet s (find_fresh r c kid e s).1
  find_fresh-IsQuiet kid none s = record { cache = refl; requests = refl }
  find_fresh-IsQuiet kid (some (jwks, at)) s = record { cache = refl; requests = refl }

  pub look-IsQuiet : (kid : Text) (s : Service) → IsQuiet s (lookup_fresh r c kid s).1
  unfolding lookup_fresh
  look-IsQuiet kid s = find_fresh-IsQuiet kid s.cache.entry s

  find_stale-IsQuiet :
      (kid : Text) (e : Option (List Jwk × ℕ)) (s : Service) → IsQuiet s (find_stale r c kid e s).1
  find_stale-IsQuiet kid none s = record { cache = refl; requests = refl }
  find_stale-IsQuiet kid (some (jwks, at)) s = record { cache = refl; requests = refl }

  pub entry_recent-IsQuiet :
      (e : Option (List Jwk × ℕ)) (s : Service) → IsQuiet s (entry_recent r c e s).1
  entry_recent-IsQuiet none s = record { cache = refl; requests = refl }
  entry_recent-IsQuiet (some (jwks, at)) s = record { cache = refl; requests = refl }

  pub stale_if-IsQuiet :
      (kid : Text) (failed : Bool) (s : Service)
      → IsQuiet s ((if failed then serve_stale r c kid else pure none) s).1
  unfolding serve_stale
  stale_if-IsQuiet kid true s = find_stale-IsQuiet kid s.cache.entry s
  stale_if-IsQuiet kid false s = record { cache = refl; requests = refl }

  -- The refresh is put off, and nothing has changed but the clock; or it is allowed.
  pub allow-cases :
      (s : Service)
      → (((allow_refresh_on_miss r c s).0 ≡ false) × IsQuiet s (allow_refresh_on_miss r c s).1)
        ⊎ ((allow_refresh_on_miss r c s).0 ≡ true)
  unfolding allow_refresh_on_miss
  allow-cases s = elim (Bool-cases (recent r c c.miss_refresh_interval s.cache.last_attempt s).0) [
    | inl early ↦ inl (
        rw (early, allow_refresh_on_miss)
          (refl, recent-IsQuiet c.miss_refresh_interval s.cache.last_attempt s))
    | inr late ↦ inr (rw (late, allow_refresh_on_miss) refl)
  ]
