-- ===== src/MapCacher.antt =====
-- storage/mapCacher.go: a cache on a map from byte strings to values. A handler that is called by `go`
-- runs whenever its goroutine does, so an operation returns the calls that it starts.
pub mod Contents
pub mod Sizes
pub mod Examples
use mx_sdk_erdgo.Prelude.{
  ℕ, zero, suc, ◌+◌, ◌*◌, Bool, true, false, Option, none, some, List, [], ◌∷◌, ◌++◌, length,
  bytes_eq, if◌then◌else◌,
}
use mx_sdk_erdgo.Dict.{Dict, lookup, insert, delete, values}
use mx_sdk_erdgo.Chain.{Bytes}

-- `V` are the values, and `H` the handlers.
pub record MapCacher (V H : Type 0) : Type 0 where
  pub data_map : Dict Bytes V
  pub added_data_handlers : List H

-- A call `go handler(key, val)`.
pub record Started (V H : Type 0) : Type 0 where
  pub handler : H
  pub key : Bytes
  pub val : V

module _ {V : Type 0} where
  abbrev pub is_some : Option V → Bool
  is_some none = false
  is_some (some v) = true

  abbrev entries : Dict Bytes V → List Bytes
  entries [] = []
  entries ((k, v) ∷ m) = k ∷ entries m

  -- The loop of `SizeInBytesContained`. A fresh gob encoder writes `encoded v` bytes of a value behind
  -- those in the buffer, or fails; the buffer is the same for all values.
  unfoldable pub size_loop : (V → Option ℕ) → ℕ → ℕ → List V → ℕ
  size_loop encoded buffered total [] = total
  size_loop encoded buffered total (v ∷ vs) = elim (encoded v) [
    | none ↦ size_loop encoded buffered total vs
    | some n ↦ size_loop encoded (buffered + n) (total + (buffered + n)) vs
  ]

module _ {V H : Type 0} where
  unfoldable pub new_map_cacher : MapCacher V H
  new_map_cacher = record { data_map = []; added_data_handlers = [] }

  unfoldable pub clear : MapCacher V H → MapCacher V H
  clear mc = record mc { data_map = [] }

  unfoldable pub call_added_data_handlers : Bytes → V → List H → List (Started V H)
  call_added_data_handlers key val [] = []
  call_added_data_handlers key val (h ∷ hs) =
      record { handler = h; key = key; val = val } ∷ call_added_data_handlers key val hs

  -- Nothing is evicted: the result is always false.
  unfoldable pub put : Bytes → V → MapCacher V H → Bool × List (Started V H) × MapCacher V H
  unfolding call_added_data_handlers
  put key value mc = (
    false,
    call_added_data_handlers key value mc.added_data_handlers,
    record mc { data_map = insert mc.data_map key value },
  )

  -- `Get`, and `Peek`, which is the same.
  unfoldable pub get : Bytes → MapCacher V H → Option V
  get key mc = lookup mc.data_map key

  unfoldable pub peek : Bytes → MapCacher V H → Option V
  peek key mc = lookup mc.data_map key

  unfoldable pub has : Bytes → MapCacher V H → Bool
  has key mc = is_some (lookup mc.data_map key)

  unfoldable pub has_or_add :
      Bytes → V → MapCacher V H → (Bool × Bool) × List (Started V H) × MapCacher V H
  unfolding call_added_data_handlers has
  has_or_add key value mc = if has key mc then ((true, false), [], mc) else (
    (false, true),
    call_added_data_handlers key value mc.added_data_handlers,
    record mc { data_map = insert mc.data_map key value },
  )

  unfoldable pub remove : Bytes → MapCacher V H → MapCacher V H
  remove key mc = record mc { data_map = delete mc.data_map key }

  unfoldable pub keys : MapCacher V H → List Bytes
  keys mc = entries mc.data_map

  unfoldable pub len : MapCacher V H → ℕ
  len mc = length mc.data_map

  unfoldable pub size_in_bytes_contained : (V → Option ℕ) → MapCacher V H → ℕ
  unfolding size_loop
  size_in_bytes_contained encoded mc = size_loop encoded 0 0 (values mc.data_map)

  pub max_size : MapCacher V H → ℕ
  max_size mc = 10000

  -- A nil handler is ignored.
  unfoldable pub register_handler : Option H → MapCacher V H → MapCacher V H
  register_handler none mc = mc
  register_handler (some h) mc = record mc {
    added_data_handlers = mc.added_data_handlers ++ (h ∷ []);
  }
