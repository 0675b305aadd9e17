-- ===== src/NonceHandlerV3/Sending/Order.antt =====
-- What the goroutines of `SendTransactions` leave behind, whatever the order in which they end.
use mx_sdk_erdgo.Prelude.{
  ℕ, zero, suc, ◌<◌, ◌≡◌, ◌≢◌, ◌↔◌, refl, ap, ◌∙◌, String, Option, none, some, List, [], ◌∷◌, ◌++◌,
  arith, All, length, at, write,
}
use mx_sdk_erdgo.Prelude.Exec.{Error}
use mx_sdk_erdgo.NonceHandlerV3.Sending.{
  Outcome, responded, cancelled, receive, Started, Group, settle, finish, wait, first_error,
}

abbrev pub hash_unless : Option Error → String → Option String
hash_unless none hash = some hash
hash_unless (some e) hash = none

-- The hash of an outcome, or none if it is an error.
abbrev pub hash_of : Outcome → Option String
hash_of (cancelled e) = none
hash_of (responded response) = hash_unless response.error response.tx_hash

-- What a place holds behind an outcome.
abbrev pub put_hash : Option String → Option String → Option String
put_hash none old = old
put_hash (some hash) old = some hash

abbrev pub HasNoErrors : List (Started × Outcome) → Type 0
HasNoErrors = All (λ c. hash_of c.1 ≢ none)

at-write : (xs : List String) (i : ℕ) (x : String) → i < length xs → at (write xs i x) i ≡ some x
at-write [] i x lt = absurd (omega arith)
at-write (y ∷ xs) zero x lt = refl
at-write (y ∷ xs) (suc i) x lt = at-write xs i x (omega arith)

at-write_other : (xs : List String) (i j : ℕ) (x : String) → i ≢ j → at (write xs i x) j ≡ at xs j
at-write_other [] i j x differs = refl
at-write_other (y ∷ xs) zero zero x differs = absurd (differs refl)
at-write_other (y ∷ xs) zero (suc j) x differs = refl
at-write_other (y ∷ xs) (suc i) zero x differs = refl
at-write_other (y ∷ xs) (suc i) (suc j) x differs =
    at-write_other xs i j x (λ e. differs (ap (λ k. suc k) e))

length-write : (xs : List String) (i : ℕ) (x : String) → length (write xs i x) ≡ length xs
length-write [] i x = refl
length-write (y ∷ xs) zero x = refl
length-write (y ∷ xs) (suc i) x = let rest = length-write xs i x in omega arith

first_error-some : (o : Option Error) (e : Error) → first_error o e ≢ none
first_error-some none e = λ x. ground arith
first_error-some (some f) e = λ x. ground arith

settle-at :
    (i : ℕ) (hash : String) (e : Option Error) (group : Group)
    → i < length group.sent_hashes
    → at (settle i (hash, e) group).sent_hashes i
      ≡ put_hash (hash_unless e hash) (at group.sent_hashes i)
unfolding settle
settle-at i hash none group lt = at-write group.sent_hashes i hash lt
settle-at i hash (some e) group lt = refl

settle-at_other :
    (i j : ℕ) (hash : String) (e : Option Error) (group : Group)
    → i ≢ j
    → at (settle i (hash, e) group).sent_hashes j ≡ at group.sent_hashes j
unfolding settle
settle-at_other i j hash none group differs = at-write_other group.sent_hashes i j hash differs
settle-at_other i j hash (some e) group differs = refl

settle-length :
    (i : ℕ) (hash : String) (e : Option Error) (group : Group)
    → length (settle i (hash, e) group).sent_hashes ≡ length group.sent_hashes
unfolding settle
settle-length i hash none group = length-write group.sent_hashes i hash
settle-length i hash (some e) group = refl

settle-error :
    (i : ℕ) (hash : String) (e : Option Error) (group : Group)
    → ((settle i (hash, e) group).error ≡ none)
      ↔ ((group.error ≡ none) × (hash_unless e hash ≢ none))
unfolding settle
settle-error i hash none group = ((λ x. (x, λ y. ground arith)), λ x. x.0)
settle-error i hash (some e) group =
    ((λ x. absurd (first_error-some group.error _ x)), λ x. absurd (x.1 refl))

finish-at :
    (s : Started) (o : Outcome) (group : Group)
    → s.idx < length group.sent_hashes
    → at (finish (s, o) group).sent_hashes s.idx ≡ put_hash (hash_of o) (at group.sent_hashes s.idx)
unfolding finish receive settle
finish-at s (responded response) group lt = settle-at s.idx response.tx_hash response.error _ lt
finish-at s (cancelled e) group lt = refl

finish-at_other :
    (c : Started × Outcome) (j : ℕ) (group : Group)
    → c.0.idx ≢ j
    → at (finish c group).sent_hashes j ≡ at group.sent_hashes j
unfolding finish receive settle
finish-at_other (s, responded response) j group differs =
    settle-at_other s.idx j response.tx_hash response.error _ differs
finish-at_other (s, cancelled e) j group differs = refl

finish-length :
    (c : Started × Outcome) (group : Group)
    → length (finish c group).sent_hashes ≡ length group.sent_hashes
unfolding finish receive settle
finish-length (s, responded response) group = settle-length s.idx response.tx_hash response.error _
finish-length (s, cancelled e) group = refl

finish-error :
    (c : Started × Outcome) (group : Group)
    → ((finish c group).error ≡ none) ↔ ((group.error ≡ none) × (hash_of c.1 ≢ none))
unfolding finish receive settle
finish-error (s, responded response) group = settle-error s.idx response.tx_hash response.error _
finish-error (s, cancelled e) group = settle-error s.idx "" (some e) group

abbrev pub AreOthers : ℕ → List (Started × Outcome) → Type 0
AreOthers i = All (λ c. c.0.idx ≢ i)

wait-at_other :
    (cs : List (Started × Outcome)) (i : ℕ) (group : Group)
    → AreOthers i cs
    → at (wait cs group).sent_hashes i ≡ at group.sent_hashes i
unfolding wait
wait-at_other [] i group others = refl
wait-at_other (c ∷ cs) i group (other, others) =
    wait-at_other cs i (finish c group) others ∙ finish-at_other c i group other

wait-at :
    (before after : List (Started × Outcome)) (s : Started) (o : Outcome) (group : Group)
    → AreOthers s.idx before
    → AreOthers s.idx after
    → s.idx < length group.sent_hashes
    → at (wait (before ++ ((s, o) ∷ after)) group).sent_hashes s.idx
      ≡ put_hash (hash_of o) (at group.sent_hashes s.idx)
unfolding wait
wait-at [] after s o group before_others after_others lt =
    wait-at_other after s.idx (finish (s, o) group) after_others ∙ finish-at s o group lt
wait-at (c ∷ before) after s o group (other, others) after_others lt =
    let same = finish-length c group in
    wait-at before after s o (finish c group) others after_others (omega arith)
    ∙ ap (put_hash (hash_of o)) (finish-at_other c s.idx group other)

wait-error :
    (cs : List (Started × Outcome)) (group : Group)
    → ((wait cs group).error ≡ none) ↔ ((group.error ≡ none) × HasNoErrors cs)
unfolding wait
wait-error [] group = ((λ e. (e, tt)), λ h. h.0)
wait-error (c ∷ cs) group =
    let (rest, back) = wait-error cs (finish c group) in
    let (one, one_back) = finish-error c group in
    (
      (λ e. let (kept, clean) = rest e in let (old, success) = one kept in (old, (success, clean))),
      λ h. back (one_back (h.0, h.1.0), h.1.1),
    )

-- The place of one of them holds the hash of its own response, or
-- what was there if that was an error, as long as no other has its index. There is an error exactly if one
-- of them had one.
pub wait-Settled :
    (before after : List (Started × Outcome)) (s : Started) (o : Outcome) (group : Group)
    → AreOthers s.idx before
    → AreOthers s.idx after
    → s.idx < length group.sent_hashes
    → (at (wait (before ++ ((s, o) ∷ after)) group).sent_hashes s.idx
        ≡ put_hash (hash_of o) (at group.sent_hashes s.idx))
      × (((wait (before ++ ((s, o) ∷ after)) group).error ≡ none)
          ↔ ((group.error ≡ none) × HasNoErrors (before ++ ((s, o) ∷ after))))
wait-Settled before after s o group others others' lt = (
  wait-at before after s o group others others' lt,
  wait-error (before ++ ((s, o) ∷ after)) group,
)
