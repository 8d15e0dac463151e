-- ===== src/Jwks/Answers.antt =====
-- jwk.rs `public_key`: which key an answer can hold.
use jwt_service_app.Base.{
  ℕ, ◌≡◌, subst, Bool, true, false, Bool-cases, Option, none, some, List, [], ◌∷◌, Result, ok, err,
  ok_or, inl, inr, if◌then◌else◌,
}
use jwt_service_app.Base.Text.{Text, text_eq, text_eq_sound}
use jwt_service_app.Jwks.Service.{Jwk, JwkError, Remote, Settings, Service, Call, not_found, pure}
use jwt_service_app.Jwks.Cache.{
  find_kid, lookup_fresh, serve_stale, refresh_recently_failed, cache_is_fresh,
  allow_refresh_on_miss, fetch_and_store, refresh, throttled, locked, public_key, find_fresh,
  find_stale, or_fetched, unless_found, or_miss, or_locked,
}

-- A call whose every answer satisfies a predicate, whatever state it starts from.
abbrev Always : {A : Type 0} → (A → Type 0) → Call A → Type 0
Always P m = (s : Service) → P (m s).0

abbrev Named : Text → Option Jwk → Type 0
Named kid none = Unit
Named kid (some k) = k.kid ≡ kid

abbrev Answers : Text → Result JwkError Jwk → Type 0
Answers kid (ok k) = k.kid ≡ kid
Answers kid (err e) = Unit

find_kid-Named : (kid : Text) (l : List Jwk) → Named kid (find_kid kid l)
find_kid-Named kid [] = tt
find_kid-Named kid (k ∷ l) = elim (Bool-cases (text_eq k.kid kid)) [
  | inl same ↦ rw same (text_eq_sound k.kid kid same)
  | inr other ↦ rw other (find_kid-Named kid l)
]

unless-Named :
    (kid : Text) (b : Bool) (o : Option Jwk) → Named kid o → Named kid (if b then none else o)
unless-Named kid true o h = tt
unless-Named kid false o h = h

ok_or-Answers : (kid : Text) (e : JwkError) (o : Option Jwk) → Named kid o → Answers kid (ok_or e o)
ok_or-Answers kid e none h = tt
ok_or-Answers kid e (some k) h = h

module _ (r : Remote) (c : Settings) where
  find_fresh-Named :
      (kid : Text) (e : Option (List Jwk × ℕ)) → Always (Named kid) (find_fresh r c kid e)
  find_fresh-Named kid none s = tt
  find_fresh-Named kid (some (jwks, at)) s = unless-Named kid _ _ (find_kid-Named kid jwks)

  find_stale-Named :
      (kid : Text) (e : Option (List Jwk × ℕ)) → Always (Named kid) (find_stale r c kid e)
  find_stale-Named kid none s = tt
  find_stale-Named kid (some (jwks, at)) s = unless-Named kid _ _ (find_kid-Named kid jwks)

  lookup_fresh-Named : (kid : Text) → Always (Named kid) (lookup_fresh r c kid)
  unfolding lookup_fresh
  lookup_fresh-Named kid s = find_fresh-Named kid s.cache.entry s

  serve_stale-Named : (kid : Text) → Always (Named kid) (serve_stale r c kid)
  unfolding serve_stale
  serve_stale-Named kid s = find_stale-Named kid s.cache.entry s

  or_fetched-Answers :
      (kid : Text) (o : Result JwkError (List Jwk)) → Always (Answers kid) (or_fetched r c kid o)
  or_fetched-Answers kid (ok jwks) s = ok_or-Answers kid not_found _ (find_kid-Named kid jwks)
  or_fetched-Answers kid (err e) s = ok_or-Answers kid e _ (serve_stale-Named kid s)

  refresh-Answers : (kid : Text) → Always (Answers kid) (refresh r c kid)
  unfolding refresh
  refresh-Answers kid s = or_fetched-Answers kid (fetch_and_store r c s).0 (fetch_and_store r c s).1

  refresh_unless-Answers :
      (kid : Text) (fresh : Bool)
      → Always (Answers kid) (if fresh then pure (err not_found) else refresh r c kid)
  refresh_unless-Answers kid true s = tt
  refresh_unless-Answers kid false s = refresh-Answers kid s

  unless_found-Answers :
      (kid : Text) (o : Option Jwk) → Named kid o → Always (Answers kid) (unless_found r c kid o)
  unless_found-Answers kid (some k) h s = h
  unless_found-Answers kid none h s =
      refresh_unless-Answers kid (cache_is_fresh r c s).0 (cache_is_fresh r c s).1

  stale_if-Named :
      (kid : Text) (failed : Bool)
      → Always (Named kid) (if failed then serve_stale r c kid else pure none)
  stale_if-Named kid true s = serve_stale-Named kid s
  stale_if-Named kid false s = tt

  throttled-Answers : (kid : Text) → Always (Answers kid) (throttled r c kid)
  unfolding throttled
  throttled-Answers kid s =
      let (failed, s') = refresh_recently_failed r c s in
      unless_found-Answers kid _ (stale_if-Named kid failed s') _

  refresh_if-Answers :
      (kid : Text) (b : Bool)
      → Always (Answers kid) (if b then refresh r c kid else throttled r c kid)
  refresh_if-Answers kid true s = refresh-Answers kid s
  refresh_if-Answers kid false s = throttled-Answers kid s

  or_miss-Answers :
      (kid : Text) (o : Option Jwk) → Named kid o → Always (Answers kid) (or_miss r c kid o)
  or_miss-Answers kid (some k) h s = h
  or_miss-Answers kid none h s =
      refresh_if-Answers kid (allow_refresh_on_miss r c s).0 (allow_refresh_on_miss r c s).1

  locked-Answers : (kid : Text) → Always (Answers kid) (locked r c kid)
  unfolding locked
  locked-Answers kid s = or_miss-Answers kid _ (lookup_fresh-Named kid s) (lookup_fresh r c kid s).1

  or_locked-Answers :
      (kid : Text) (o : Option Jwk) → Named kid o → Always (Answers kid) (or_locked r c kid o)
  or_locked-Answers kid (some k) h s = h
  or_locked-Answers kid none h s = locked-Answers kid s

  public_key-Always : (kid : Text) → Always (Answers kid) (public_key r c kid)
  unfolding public_key
  public_key-Always kid s =
      or_locked-Answers kid _ (lookup_fresh-Named kid s) (lookup_fresh r c kid s).1

  -- Whatever the cache holds and whatever the key service replies, a key that `public_key` answers
  -- with bears the `kid` that was asked for.
  pub public_key-kid :
      (kid : Text) (s : Service) (k : Jwk) → (public_key r c kid s).0 ≡ ok k → k.kid ≡ kid
  public_key-kid kid s k h = subst (Answers kid) h (public_key-Always kid s)
