-- ===== src/MapCacher/Contents.antt =====
-- The cache seen from one key, over any sequence of operations.
use mx_sdk_erdgo.Prelude.{
  ◌≡◌, refl, sym, ap, Bool-cases, ◌∙◌, true, Option, none, some, Option-cases, inl, inr, List, [],
  ◌∷◌, ◌==◌, bytes_eq, if◌then◌else◌,
}
use mx_sdk_erdgo.Dict.{Dict, lookup, lookup-insert, lookup-delete}
use mx_sdk_erdgo.Chain.{Bytes}
use mx_sdk_erdgo.MapCacher.{MapCacher, clear, put, get, has, has_or_add, remove, register_handler}

-- The operations that change the cache.
pub data Operation (V H : Type 0) : Type 0 where
  clears : Operation V H
  puts adds : Bytes → V → Operation V H
  removes : Bytes → Operation V H
  registers : Option H → Operation V H

abbrev pub or_else : {V : Type 0} → Option V → V → Option V
or_else none v = some v
or_else (some w) v = some w

at_equal : {V : Type 0} (m : Dict Bytes V) (j k : Bytes) → (j == k) ≡ true → lookup m k ≡ lookup m j
at_equal m j k same = ap (lookup m) (sym ((bytes_eq.same_iff j k).0 same))

module _ {V H : Type 0} where
  unfoldable pub perform : Operation V H → MapCacher V H → MapCacher V H
  perform clears mc = clear mc
  perform (puts k v) mc = (put k v mc).2
  perform (adds k v) mc = (has_or_add k v mc).2
  perform (removes k) mc = remove k mc
  perform (registers h) mc = register_handler h mc

  unfoldable pub perform_all : List (Operation V H) → MapCacher V H → MapCacher V H
  perform_all [] mc = mc
  perform_all (op ∷ ops) mc = perform_all ops (perform op mc)

  -- What an operation means for one key: a value that is there or not.
  abbrev pub effect : Bytes → Operation V H → Option V → Option V
  effect k clears o = none
  effect k (puts j v) o = if j == k then some v else o
  effect k (adds j v) o = if j == k then or_else o v else o
  effect k (removes j) o = if j == k then none else o
  effect k (registers h) o = o

  abbrev pub effects : Bytes → List (Operation V H) → Option V → Option V
  effects k [] o = o
  effects k (op ∷ ops) o = effects k ops (effect k op o)

  get-has_or_add :
      (j k : Bytes) (v : V) (mc : MapCacher V H)
      → lookup (has_or_add j v mc).2.data_map k
        ≡ (if j == k then or_else (lookup mc.data_map k) v else lookup mc.data_map k)
  unfolding has_or_add has
  get-has_or_add j k v mc = elim (Option-cases (lookup mc.data_map j)) [
    | inl new ↦ rw new (
        lookup-insert mc.data_map j k v ∙ elim (Bool-cases (j == k)) [
          | inl same ↦ rw same (rw (at_equal mc.data_map j k same) (rw new refl))
          | inr other ↦ rw other refl
        ])
    | inr (w, old) ↦ rw old (elim (Bool-cases (j == k)) [
      | inl same ↦ rw same (rw (at_equal mc.data_map j k same) (rw old refl))
      | inr other ↦ rw other refl
    ])
  ]

  get-perform :
      (op : Operation V H) (mc : MapCacher V H) (k : Bytes)
      → get k (perform op mc) ≡ effect k op (get k mc)
  unfolding perform get clear put remove register_handler lookup
  get-perform clears mc k = refl
  get-perform (puts j v) mc k = lookup-insert mc.data_map j k v
  get-perform (adds j v) mc k = get-has_or_add j k v mc
  get-perform (removes j) mc k = lookup-delete mc.data_map j k
  get-perform (registers none) mc k = refl
  get-perform (registers (some h)) mc k = refl

  -- After any sequence of operations a key has the value that these operations, one after the other,
  -- give to it alone, whatever they do to other keys.
  pub get-perform_all :
      (ops : List (Operation V H)) (mc : MapCacher V H) (k : Bytes)
      → get k (perform_all ops mc) ≡ effects k ops (get k mc)
  unfolding perform_all
  get-perform_all [] mc k = refl
  get-perform_all (op ∷ ops) mc k =
      get-perform_all ops (perform op mc) k ∙ ap (effects k ops) (get-perform op mc k)
