-- ===== src/Heap/Sink.antt =====
-- `down` and `Pop` of container/heap restore the order, and neither panic nor run on.
use mathlib.Core.List.Perm
use mathlib.Core.List.{perm_append_singleton}
use mx_sdk_erdgo.Prelude.{
  ℕ, zero, suc, ◌+◌, ◌-◌, ◌*◌, ◌≤◌, ◌<◌, ◌≡◌, ◌≢◌, ◌⊎◌, inl, inr, refl, sym, ap, ◌∙◌, Bool-cases,
  some, List, [], ◌∷◌, arith, length, length-append, length-perm, Perm, at, at-append, at_last,
  Exchanged, ltb, leb, nat_eq,
}
use mx_sdk_erdgo.Heap.{Interface, parent, least_child, down_loop, heap_pop}
use mx_sdk_erdgo.Heap.Order.{
  Gives, Gives-bind, Gives-map, Gives-if, key_at, IsHeap, key_at-Exchanged, Implements,
}

module _ {H X A : Type 0} {interface : Interface H X} {view : H → List A} {item : X → A}
    {key : A → ℕ} (laws : Implements interface view item key) where
  abbrev k : H → ℕ → ℕ
  k h c = key_at key (view h) c

  -- Among the first `n` only the edges below `i` may be out of order.
  record Sinking (n i : ℕ) (h : H) : Type 0 where
    within : n ≤ length (view h)
    edges : (c : ℕ) → 0 < c → c < n → parent c ≢ i → k h (parent c) ≤ k h c
    over : (c : ℕ) → 0 < c → c < n → parent c ≡ i → 0 < i → k h (parent i) ≤ k h c

  record IsLeastChild (n i : ℕ) (h : H) (j : ℕ) : Type 0 where
    inside : j < n
    child : (j ≡ 2 * i + 1) ⊎ (j ≡ 2 * i + 2)
    least : (c : ℕ) → 0 < c → c < n → parent c ≡ i → k h j ≤ k h c

  least_child-IsLeastChild :
      (n i : ℕ) (h : H)
      → 2 * i + 1 < n
      → n ≤ length (view h)
      → Gives (IsLeastChild n i h) (least_child interface i n h)
  unfolding least_child
  least_child-IsLeastChild n i h lt le =
      let left = 2 * i + 1 in
      Gives-if (ltb (left + 1) n)
        (λ two.
          let right : left + 1 < n = ground arith in
          rw (laws.less_law (left + 1) left h (omega arith) (omega arith))
            (elim (Bool-cases (ltb (k h (left + 1)) (k h left))) [
              | inl smaller ↦ rw smaller (
                left + 1,
                refl,
                record {
                  inside = right;
                  child = inr (omega arith);
                  least = λ c p q e. only (k h) c p e (ground arith) (omega arith);
                },
              )
              | inr larger ↦ rw larger (
                left,
                refl,
                record {
                  inside = lt;
                  child = inl refl;
                  least = λ c p q e. only (k h) c p e (omega arith) (ground arith);
                },
              )
            ]))
        (λ one.
          (left, refl, record { inside = lt; child = inl refl; least = λ c p q e. ground arith }))
    where
      -- A child of `i` is one of two.
      only :
          (f : ℕ → ℕ) {m : ℕ} (c : ℕ)
          → 0 < c
          → parent c ≡ i
          → m ≤ f (2 * i + 1)
          → m ≤ f (2 * i + 1 + 1)
          → m ≤ f c
      only f c p e l r = ground arith

  swap-Sinking :
      (n i j : ℕ) (h h' : H)
      → Sinking n i h
      → IsLeastChild n i h j
      → k h j < k h i
      → Exchanged i j (view h) (view h')
      → Sinking n j h'
  swap-Sinking n i j h h' s m below x =
      let l = length-perm x.same in
      let keys = key_at-Exchanged key x in
      record {
        within = let w = s.within in omega arith;
        edges = λ c p q d.
            let place = m.child in
            (let inside = m.inside in
              ground (arith, keys c, keys (parent c), s.edges c, s.over j, m.least c));
        over =
            λ c p q e z. let place = m.child in ground (arith, keys c, keys (parent j), s.edges c);
      }

  -- The items of `h`: the first `n` in the order of a heap, the others where they were.
  record Sunk (n : ℕ) (h h' : H) : Type 0 where
    order : IsHeap key n (view h')
    same : Perm (view h') (view h)
    others : (c : ℕ) → n ≤ c → at (view h') c ≡ at (view h) c

  down_loop-Sunk :
      (fuel i n : ℕ) (h : H)
      → n < fuel + i
      → i ≤ n
      → Sinking n i h
      → Gives (Sunk n h) (down_loop interface fuel i n h)
  unfolding down_loop
  down_loop-Sunk zero i n h lt le s = absurd (omega arith)
  down_loop-Sunk (suc fuel) i n h lt le s =
      let within = s.within in
      Gives-if (leb n (2 * i + 1))
        (λ leaf. (
          h,
          refl,
          record {
            order = λ c p q. ground (arith, s.edges c);
            same = Perm.rfl;
            others = λ c q. refl;
          },
        ))
        (λ inner. Gives-bind (least_child-IsLeastChild n i h (ground arith) within) λ j m.
          let inside = m.inside in
          let place = m.child in
          let hi : i < length (view h) = omega arith in
          let hj : j < length (view h) = omega arith in
          rw (laws.less_law j i h hj hi) (
            Gives-if (ltb (k h j) (k h i))
              (λ below. Gives-bind (laws.swap_law i j h hi hj) λ h' x.
                Gives-map
                  (down_loop-Sunk fuel j n h' (omega arith) (omega arith)
                    (swap-Sinking n i j h h' s m (ground arith) x))
                  λ h'' sunk. record {
                    order = sunk.order;
                    same = Perm.trans sunk.same x.same;
                    others = λ c q. let e = x.entries c in let f = sunk.others c q in ground arith;
                  })
              (λ settled. (
                h,
                refl,
                record {
                  order = λ c p q. ground (arith, s.edges c, m.least c);
                  same = Perm.rfl;
                  others = λ c q. refl;
                },
              ))))

  -- What `Pop` returns: a least item, and a heap of the others.
  pub record Popped (h : H) (r : X × H) : Type 0 where
    pub order : IsHeap key (length (view r.1)) (view r.1)
    pub same : Perm (view h) (item r.0 ∷ view r.1)
    pub first : at (view h) 0 ≡ some (item r.0)

  swapped-Sinking :
      (n : ℕ) (h h1 : H)
      → length (view h) ≡ n + 1
      → IsHeap key (length (view h)) (view h)
      → Exchanged 0 n (view h) (view h1)
      → Sinking n 0 h1
  swapped-Sinking n h h1 size order x =
      let l = length-perm x.same in
      let keys = key_at-Exchanged key x in
      record {
        within = omega arith;
        edges = λ c p q d. ground (arith, keys c, keys (parent c), order c);
        over = λ c p q e z. absurd (omega arith);
      }

  -- `Pop` on a heap that is not empty neither panics nor runs on.
  pub heap_pop-Popped :
      (h : H)
      → IsHeap key (length (view h)) (view h)
      → 0 < length (view h)
      → Gives (Popped h) (heap_pop interface h)
  unfolding heap_pop
  heap_pop-Popped h order some_left =
      let n = length (view h) - 1 in
      let size : length (view h) ≡ n + 1 = omega arith in
      rw (laws.len_law h) (
        Gives-bind (laws.swap_law 0 n h some_left (omega arith)) λ h1 x.
          Gives-bind
            (down_loop-Sunk (n + 1) 0 n h1 (omega arith) (omega arith)
              (swapped-Sinking n h h1 size order x))
            λ h2 sunk.
              let l1 = length-perm x.same in
              let l2 = length-perm (sunk.same) in
              Gives-map (laws.pop_law h2 (omega arith)) λ (r, h3) e.
                let l3 = ap length e ∙ length-append (view h3) (item r ∷ []) in
                let left : length (view h3) ≡ n = omega arith in
                let kept : (c : ℕ) → c < n → k h3 c ≡ k h2 c =
                  λ c lt. rw e (rw (at-append (view h3) (item r ∷ []) c (omega arith)) refl) in
                record {
                  order = λ c p q. ground (arith, sunk.order c, kept c, kept (parent c));
                  same = Perm.symm (
                      Perm.trans (Perm.symm (perm_append_singleton (item r) (view h3)))
                        (rw e at (Perm.trans sunk.same x.same)));
                  first =
                      let moved = x.entries n in
                      let last = sunk.others n (omega arith) in
                      let end : at (view h2) n ≡ some (item r) =
                        rw e (rw (sym left) (at_last (view h3) (item r))) in
                      ground arith;
                })
