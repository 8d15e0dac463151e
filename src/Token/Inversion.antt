-- ===== src/Token/Inversion.antt =====
-- What a run that came to a result has done on the way.
use jwt_service_app.Base.{
  ◌+◌, ◌≡◌, refl, sym, ap, ◌∙◌, Option, none, some, Result, ok, err, Result-cases, inl, inr,
}
use jwt_service_app.Store.{JtiError, Op}
use jwt_service_app.Token.Claims.{or_panic}
use jwt_service_app.Token.Platform.{JwtError, Platform}
use jwt_service_app.Token.Run.{
  World, Run, Outcome, done, failed, panicked, ◌>>=◌, resume, lift, on_store,
}

module _ {S K : Type 0} where
  abbrev pub Ends : {A : Type 0} → Run S K A → World S K → A → World S K → Type 0
  Ends {A} m w a w' = ◌≡◌ {A = Outcome A × World S K} (m w) (done a, w')

  pub >>=-Ends :
      {A B : Type 0} (m : Run S K A) (f : A → Run S K B) {w w' : World S K} {b : B}
      → Ends (m >>= f) w b w'
      → (a : A) × (w1 : World S K) × Ends m w a w1 × Ends (f a) w1 b w'
  >>=-Ends {A} m f {w} {w'} {b} h = go (m w) refl
    where
      go :
          (r : Outcome A × World S K)
          → m w ≡ r
          → (a : A) × (w1 : World S K) × Ends m w a w1 × Ends (f a) w1 b w'
      go (done a, w1) e = (a, w1, e, sym (ap (resume f) e) ∙ h)
      go (failed x, w1) e = absurd (cc (sym (ap (resume f) e) ∙ h))
      go (panicked, w1) e = absurd (cc (sym (ap (resume f) e) ∙ h))

  pub lift-Ends :
      {A : Type 0} (r : Result JwtError A) {w w' : World S K} {a : A}
      → Ends (lift r) w a w'
      → (r ≡ ok a) × (w ≡ w')
  lift-Ends (ok x) h = (cc, cc)
  lift-Ends (err x) h = absurd (cc h)

  pub lift->>=-Ends :
      {A B : Type 0} (r : Result JwtError A) (f : A → Run S K B) {w w' : World S K} {b : B}
      → Ends (lift r >>= f) w b w'
      → (a : A) × (r ≡ ok a) × Ends (f a) w b w'
  lift->>=-Ends (ok a) f h = (a, refl, h)
  lift->>=-Ends (err x) f h = absurd (cc h)

  pub or_panic->>=-Ends :
      {A B : Type 0} (o : Option A) (f : A → Run S K B) {w w' : World S K} {b : B}
      → Ends (or_panic o >>= f) w b w'
      → (a : A) × (o ≡ some a) × Ends (f a) w b w'
  or_panic->>=-Ends none f h = absurd (cc h)
  or_panic->>=-Ends (some a) f h = (a, refl, h)

  -- The state after an operation of the store.
  abbrev pub after_store : {A : Type 0} → World S K → Result JtiError A × S → World S K
  after_store w answer = record w { store = answer.1; reads = w.reads + 1 }

  pub on_store->>=-Ends :
      {A B : Type 0} (p : Platform) (op : Op S A) (f : A → Run S K B) {w w' : World S K} {b : B}
      → Ends (on_store p op >>= f) w b w'
      → (a : A) × ((op (p.clock w.reads) w.store).0 ≡ ok a)
        × Ends (f a) (after_store w (op (p.clock w.reads) w.store)) b w'
  on_store->>=-Ends p op f {w} h = elim (Result-cases (op (p.clock w.reads) w.store).0) [
    | inl (a, answer) ↦ (a, answer, rw answer at h)
    | inr (e, failing) ↦ absurd (cc (rw failing at h))
  ]
