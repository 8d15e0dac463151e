-- ===== src/Token/Run.antt =====
-- A request that works on tokens: it reads the clock, draws UUIDs, and changes the store and the
-- state of the key source; it gives a result, an error, or a panic.
use jwt_service_app.Base.{ℕ, ◌+◌, Result, ok, err}
use jwt_service_app.Base.Text.{Text}
use jwt_service_app.Store.{JtiError, Op}
use jwt_service_app.Token.Platform.{Platform, JwtError, store_error}

pub record World (S K : Type 0) : Type 0 where
  pub store : S
  pub keys : K
  pub drawn : ℕ
  pub reads : ℕ

pub data Outcome (A : Type 0) : Type 0 where
  done : A → Outcome A
  failed : JwtError → Outcome A
  panicked : Outcome A

abbrev pub Run : Type 0 → Type 0 → Type 0 → Type 0
Run S K A = World S K → Outcome A × World S K

-- What follows a part of a run.
abbrev pub resume :
    {S K A B : Type 0} → (A → Run S K B) → Outcome A × World S K → Outcome B × World S K
resume f (done a, w) = f a w
resume f (failed e, w) = (failed e, w)
resume f (panicked, w) = (panicked, w)

infixl 5 ◌>>=◌ ◌>>◌
abbrev pub ◌>>=◌ : {S K A B : Type 0} → Run S K A → (A → Run S K B) → Run S K B
◌>>=◌ m f w = resume f (m w)

abbrev pub ◌>>◌ : {S K B : Type 0} → Run S K (Unit {0}) → Run S K B → Run S K B
m >> k = m >>= λ _. k

abbrev pub pure : {S K A : Type 0} → A → Run S K A
pure a w = (done a, w)

abbrev pub fail : {S K A : Type 0} → JwtError → Run S K A
fail e w = (failed e, w)

abbrev pub outcome_of : {A : Type 0} → Result JwtError A → Outcome A
outcome_of (ok a) = done a
outcome_of (err e) = failed e

abbrev pub lift : {S K A : Type 0} → Result JwtError A → Run S K A
lift r w = (outcome_of r, w)

abbrev pub stored : {A : Type 0} → Result JtiError A → Outcome A
stored (ok a) = done a
stored (err e) = failed store_error

module _ (p : Platform) {S K : Type 0} where
  -- `Utc::now()`
  abbrev pub utc_now : Run S K ℕ
  utc_now w = (done (p.clock w.reads), record w { reads = w.reads + 1 })

  -- `Uuid::new_v4()`
  abbrev pub new_uuid : Run S K Text
  new_uuid w = (done (p.uuid w.drawn), record w { drawn = w.drawn + 1 })

  -- An operation of the store, whose result is kept.
  abbrev pub ask_store : {A : Type 0} → Op S A → Run S K (Result JtiError A)
  ask_store op w =
      let (r, s) = op (p.clock w.reads) w.store in
      (done r, record w { store = s; reads = w.reads + 1 })

  -- An operation of the store, whose error is a store error.
  abbrev pub on_store : {A : Type 0} → Op S A → Run S K A
  on_store op w =
      let (r, s) = op (p.clock w.reads) w.store in
      (stored r, record w { store = s; reads = w.reads + 1 })
