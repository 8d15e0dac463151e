-- ===== src/Tests/Samples.antt =====
-- The inputs that the tests share: a Redis server that never fails, an environment with no variable.
use jwt_service_app.Base.{true, none, some, [], ◌∷◌}
use jwt_service_app.Base.Text.{codes}
use jwt_service_app.Env.{Env}
use jwt_service_app.Store.{JtiStore, RefreshRecord}
use jwt_service_app.Redis.{AudienceJson, RedisClient, redis_store}
use jwt_service_app.Redis.Keyspace.{Keyspace}
use jwt_service_app.Redis.Server.{ideal}

abbrev pub no_variables : Env
no_variables name = none

-- The audience "a" is printed as "a".
abbrev pub one_audience : AudienceJson
one_audience = record {
  print = λ l. elim l [ [] ↦ some [] | a ∷ more ↦ some a ];
  parse = λ t. some (t ∷ []);
}

abbrev pub empty : Keyspace
empty k = none

abbrev pub connected : Keyspace → RedisClient ideal one_audience
connected ks = record { db = ks; manager = true }

abbrev pub store : JtiStore
store = redis_store ideal one_audience

abbrev pub sample_refresh : RefreshRecord
sample_refresh = record { subject = codes "s"; audience = codes "a" ∷ []; family = codes "f" }
