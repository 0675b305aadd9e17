-- ===== src/Heap/Order.antt =====
-- The order of a heap, and what an implementation of the interface owes to container/heap.
use mx_sdk_erdgo.Prelude.{
  ℕ, zero, suc, ◌≤◌, ◌<◌, ◌≡◌, refl, ap, Bool, true, false, Option, none, some, List, [], ◌∷◌, ◌++◌,
  arith, length, at, Exchanged, ltb, ◌==◌, nat_eq, if◌then◌else◌,
}
use mx_sdk_erdgo.Heap.{Interface, parent, ◌>>=◌}

-- A call that neither panics nor runs out of fuel, with a result that satisfies `P`.
abbrev pub Gives : {A : Type 0} → (A → Type 0) → Option A → Type 0
Gives {A = A} P o = (a : A) × (o ≡ some a) × P a

pub Gives-bind :
    {A B : Type 0} {P : A → Type 0} {Q : B → Type 0} {o : Option A} {f : A → Option B}
    → Gives P o
    → ((a : A) → P a → Gives Q (f a))
    → Gives Q (o >>= f)
Gives-bind (a, e, p) k = rw e (k a p)

pub Gives-map :
    {A : Type 0} {P Q : A → Type 0} {o : Option A} → Gives P o → ((a : A) → P a → Q a) → Gives Q o
Gives-map (a, e, p) k = (a, e, k a p)

pub Gives-if :
    {A : Type 0} {P : A → Type 0} {o q : Option A} (b : Bool)
    → (b ≡ true → Gives P o)
    → (b ≡ false → Gives P q)
    → Gives P (if b then o else q)
Gives-if true k l = k refl
Gives-if false k l = l refl

module _ {A : Type 0} (key : A → ℕ) where
  abbrev pub key_of : Option A → ℕ
  key_of none = 0
  key_of (some a) = key a

  abbrev pub key_at : List A → ℕ → ℕ
  key_at xs i = key_of (at xs i)

  -- Among the first `n` no item is less than its parent.
  abbrev pub IsHeap : ℕ → List A → Type 0
  IsHeap n xs = (c : ℕ) → 0 < c → c < n → key_at xs (parent c) ≤ key_at xs c

  pub key_at-Exchanged :
      {i j : ℕ} {xs ys : List A}
      → Exchanged i j xs ys
      → (c : ℕ)
      → key_at ys c ≡ (if j == c then key_at xs i else if i == c then key_at xs j else key_at xs c)
  key_at-Exchanged x c = let e = ap key_of (x.entries c) in ground arith

  root_below :
      (k n : ℕ) (xs : List A) (i : ℕ) → IsHeap n xs → i < k → i < n → key_at xs 0 ≤ key_at xs i
  root_below zero n xs i h lt within = absurd (omega arith)
  root_below (suc k) n xs zero h lt within = omega arith
  root_below (suc k) n xs (suc i) h lt within =
      let above = root_below k n xs (parent (suc i)) h (omega arith) (omega arith) in
      let edge = h (suc i) (omega arith) within in omega arith

  -- The root is least.
  pub root_least : (n : ℕ) (xs : List A) (i : ℕ) → IsHeap n xs → i < n → key_at xs 0 ≤ key_at xs i
  root_least n xs i h within = root_below (suc i) n xs i h (omega arith) within

-- The interface works on the list `view h`, within its bounds, and compares by `key`.
pub record Implements {H X A : Type 0} (interface : Interface H X) (view : H → List A)
    (item : X → A) (key : A → ℕ) : Type 0 where
  pub len_law : (h : H) → interface.len h ≡ length (view h)
  pub less_law :
      (i j : ℕ) (h : H)
      → i < length (view h)
      → j < length (view h)
      → interface.less i j h ≡ some (ltb (key_at key (view h) i) (key_at key (view h) j))
  pub swap_law :
      (i j : ℕ) (h : H)
      → i < length (view h)
      → j < length (view h)
      → Gives (λ h'. Exchanged i j (view h) (view h')) (interface.swap i j h)
  pub push_law : (x : X) (h : H) → view (interface.push x h) ≡ view h ++ (item x ∷ [])
  pub pop_law :
      (h : H)
      → 0 < length (view h)
      → Gives (λ (x, h'). view h ≡ view h' ++ (item x ∷ [])) (interface.pop h)
