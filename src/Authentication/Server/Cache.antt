-- ===== src/Authentication/Server/Cache.antt =====
-- The cache of storage/mapCacher.go as the server's cache of timestamps.
use mx_sdk_erdgo.Prelude.{◌≡◌, refl, ◌∙◌, some, [], ◌∷◌, bytes_eq}
use mx_sdk_erdgo.Chain.{Bytes}
use mx_sdk_erdgo.MapCacher.{MapCacher, get, put}
use mx_sdk_erdgo.MapCacher.Contents.{puts, perform, perform_all, get-perform_all}
use mx_sdk_erdgo.Authentication.Server.{Cacher}

module _ {V H : Type 0} where
  pub get-put :
      (key : Bytes) (value : V) (mc : MapCacher V H) → get key (put key value mc).2 ≡ some value
  unfolding perform_all perform put get
  get-put key value mc =
      let same = (bytes_eq.same_iff key key).1 refl in
      get-perform_all (puts key value ∷ []) mc key ∙ rw same refl

  -- Handlers that `Put` starts run beside the server.
  abbrev pub map_cacher : Cacher (MapCacher V H) V
  map_cacher = record { get = get; put = λ key value mc. (put key value mc).2; get-put = get-put }
