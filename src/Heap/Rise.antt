-- ===== src/Heap/Rise.antt =====
-- `up` and `Push` of container/heap restore the order, and neither panic nor run on.
use mathlib.Core.List.Perm
use mathlib.Core.List.{perm_append_singleton}
use mx_sdk_erdgo.Prelude.{
  ℕ, zero, suc, ◌+◌, ◌-◌, ◌≤◌, ◌<◌, ◌≡◌, ◌≢◌, refl, ap, ◌∙◌, List, [], ◌∷◌, arith, length,
  length-append, length-perm, Perm, at-append, Exchanged, ltb, ◌==◌, nat_eq,
}
use mx_sdk_erdgo.Heap.{Interface, parent, up_loop, heap_push}
use mx_sdk_erdgo.Heap.Order.{
  Gives, Gives-bind, Gives-map, Gives-if, key_at, IsHeap, key_at-Exchanged, Implements,
}

module _ {H X A : Type 0} {interface : Interface H X} {view : H → List A} {item : X → A}
    {key : A → ℕ} (laws : Implements interface view item key) where
  abbrev k : H → ℕ → ℕ
  k h c = key_at key (view h) c

  -- Only the edge above `j` may be out of order.
  record Rising (j : ℕ) (h : H) : Type 0 where
    inside : j < length (view h)
    edges : (c : ℕ) → 0 < c → c < length (view h) → c ≢ j → k h (parent c) ≤ k h c
    over : (c : ℕ) → 0 < c → c < length (view h) → parent c ≡ j → 0 < j → k h (parent j) ≤ k h c

  swap-Rising :
      (j : ℕ) (h h' : H)
      → Rising j h
      → 0 < j
      → k h j < k h (parent j)
      → Exchanged (parent j) j (view h) (view h')
      → Rising (parent j) h'
  swap-Rising j h h' r positive below x =
      let l = length-perm x.same in
      let keys = key_at-Exchanged key x in
      record {
        inside = let i = r.inside in omega arith;
        edges = λ c p q d. ground (arith, keys c, keys (parent c), r.edges c, r.over c);
        over = λ c p q e z.
            ground
              (arith, keys c, keys (parent (parent j)), r.edges c, r.edges (parent j), r.over c);
      }

  -- The items of `h`, in the order of a heap.
  abbrev pub Ordered : H → H → Type 0
  Ordered h h' = IsHeap key (length (view h')) (view h') × Perm (view h') (view h)

  up_loop-Ordered :
      (fuel j : ℕ) (h : H) → j < fuel → Rising j h → Gives (Ordered h) (up_loop interface fuel j h)
  unfolding up_loop
  up_loop-Ordered zero j h lt r = absurd (omega arith)
  up_loop-Ordered (suc fuel) j h lt r =
      let above : parent j < length (view h) = let i = r.inside in omega arith in
      Gives-if (parent j == j)
        (λ root. (h, refl, ((λ c p q. r.edges c p q (ground arith)), Perm.rfl)))
        (λ lower. rw (laws.less_law j (parent j) h r.inside above) (
          Gives-if (ltb (k h j) (k h (parent j)))
            (λ below. Gives-bind (laws.swap_law (parent j) j h above r.inside) λ h' x.
              Gives-map
                (up_loop-Ordered fuel (parent j) h' (ground arith)
                  (swap-Rising j h h' r (ground arith) (ground arith) x))
                λ h'' (order, p). (order, Perm.trans p x.same))
            (λ settled. (h, refl, ((λ c p q. ground (arith, r.edges c)), Perm.rfl)))))

  -- `Push` on a heap neither panics nor runs on: it gives a heap of its items and the new one.
  pub heap_push-Ordered :
      (x : X) (h : H)
      → IsHeap key (length (view h)) (view h)
      → Gives
          (λ h'. IsHeap key (length (view h')) (view h') × Perm (view h') (item x ∷ view h))
          (heap_push interface x h)
  unfolding heap_push
  heap_push-Ordered x h order =
      let grown = interface.push x h in
      let e = laws.push_law x h in
      let l = length-append (view h) (item x ∷ []) in
      let size : length (view grown) ≡ length (view h) + 1 = ap length e ∙ l in
      let kept : (c : ℕ) → c < length (view h) → k grown c ≡ k h c =
        λ c lt. rw e (rw (at-append (view h) (item x ∷ []) c lt) refl) in
      rw (laws.len_law grown) (
        Gives-map
          (up_loop-Ordered (length (view grown)) (length (view grown) - 1) grown (omega arith)
            (record {
              inside = omega arith;
              edges = λ c p q d. ground (arith, order c, kept c, kept (parent c));
              over = λ c p q e' z. omega arith;
            }))
          λ h' (order', p). (order', Perm.trans p (rw e (perm_append_singleton (item x) (view h)))))
