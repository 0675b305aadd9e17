-- ===== src/MapCacher/Examples.antt =====
-- The theorems on the map cacher at concrete inputs, and tests.
use mx_sdk_erdgo.Prelude.{ℕ, ◌≡◌, refl, some, List, [], ◌∷◌, bytes_eq}
use mx_sdk_erdgo.Dict.{lookup}
use mx_sdk_erdgo.MapCacher.{MapCacher, get, put, size_in_bytes_contained}
use mx_sdk_erdgo.MapCacher.Contents.{Operation, puts, adds, removes, perform_all, get-perform_all}

-- The values are their sizes, and the handlers are numbered.
abbrev two : MapCacher ℕ ℕ
two = record { data_map = (1 ∷ [], 10) ∷ (2 ∷ [], 20) ∷ []; added_data_handlers = 0 ∷ [] }

abbrev steps : List (Operation ℕ ℕ)
steps = adds (1 ∷ []) 11 ∷ puts (2 ∷ []) 21 ∷ removes (1 ∷ []) ∷ adds (1 ∷ []) 12 ∷ []

get-perform_all_example : get (1 ∷ []) (perform_all steps two) ≡ some 12
unfolding get lookup
get-perform_all_example = get-perform_all steps two (1 ∷ [])

-- The second value counts the first one's 10 bytes again.
forty : size_in_bytes_contained {V = ℕ} {H = ℕ} (λ n. some n) two ≡ 40
unfolding size_in_bytes_contained
forty = refl

-- A put starts every handler.
put_starts : (put (3 ∷ []) 7 two).1 ≡ record { handler = 0; key = 3 ∷ []; val = 7 } ∷ []
unfolding put
put_starts = refl
