-- ===== src/Authentication/Server/Acceptance.antt =====
-- Which tokens the server accepts, by what the cache holds, what the chain answers, and the clock.
use mx_sdk_erdgo.Prelude.{
  ℕ, ◌≡◌, refl, sym, ap, ◌∙◌, true, false, not, ◌&&◌, ◌||◌, Bool-cases, Option, none, some, inl,
  inr, ◌⊎◌, ◌↔◌, ◌++◌, arith, ltb, ◌==◌, nat_eq, nat_beq_iff, if◌then◌else◌,
}
use mx_sdk_erdgo.Prelude.Exec.{Error, Result, ok, err, panic}
use mx_sdk_erdgo.Prelude.Success.{differ_err, differ_panic, ok-injective}
use mx_sdk_erdgo.Chain.{Bytes, Response}
use mx_sdk_erdgo.BigInt.{ℤ, pos, negsuc, is_less}
use mx_sdk_erdgo.Authentication.{AuthToken}
use mx_sdk_erdgo.Authentication.Time.{Time, add_int64, int_beq, after, unix}
use mx_sdk_erdgo.Authentication.Server.{
  Cacher, Cached, int64, another, Services, blocks_endpoint, is_some, block_of, get_block_by_hash,
  remember, fetch_timestamp, timestamp_of, get_block_timestamp, is_expired, validate,
}
use mx_sdk_erdgo.Authentication.Server.Accepts.{IsSignedByAddress, validate-IsFresh}

-- The time is not later than this second, counted from the year 1.
abbrev pub IsNotLater : Time → ℤ → Type 0
IsNotLater t second = (is_less t.sec second ≡ true) ⊎ ((t.sec ≡ second) × (t.nsec ≡ 0))

not_later_iff :
    (a b : ℤ) (n : ℕ)
    → ((is_less b a || (int_beq a b && ltb 0 n)) ≡ false)
      ↔ ((is_less a b ≡ true) ⊎ ((a ≡ b) × (n ≡ 0)))
not_later_iff (pos a) (pos b) n = (ground arith, ground arith)
not_later_iff (pos a) (negsuc b) n = (ground arith, ground arith)
not_later_iff (negsuc a) (pos b) n = (ground arith, ground arith)
not_later_iff (negsuc a) (negsuc b) n = (ground arith, ground arith)

module _ {W K C : Type 0} (services : Services W K) (cacher : Cacher C Cached) where
  -- The chain gives this timestamp of the block, and leaves the world `w'`.
  abbrev pub Answers : Bytes → W → ℤ → W → Type 0
  Answers hash w timestamp w' =
      (response : Response) × (services.get_http (blocks_endpoint ++ hash) w ≡ (response, w'))
      × (response.error ≡ none)
      × (response.code ≡ 200)
      × (services.unmarshal_timestamp response.buff ≡ ok timestamp)

  -- The timestamp is in the cache, and nothing is asked for; or the cache has nothing, and the chain's
  -- answer is put into it.
  abbrev pub HasTimestamp : Bytes → C × W → ℤ → C × W → Type 0
  HasTimestamp hash s timestamp end =
      ((cacher.get hash s.0 ≡ some (int64 timestamp)) × (s ≡ end))
      ⊎ ((cacher.get hash s.0 ≡ none)
          × Answers hash s.1 timestamp end.1
          × (cacher.put hash (int64 timestamp) s.0 ≡ end.0))

  -- The block has a timestamp, and the clock is not behind the sum of that and the time to live. The
  -- years up to 1970 are added, since the clock counts from the year 1; the sums are of int64.
  abbrev pub IsInTime : AuthToken → C × W → C × W → Type 0
  IsInTime token s end =
      (timestamp : ℤ) × HasTimestamp token.block_hash s timestamp end
      × IsNotLater (services.now end.1)
          (add_int64 (add_int64 timestamp token.ttl) (pos 62135596800))

  fresh_iff :
      (timestamp ttl : ℤ) (w : W)
      → (is_expired services cacher timestamp ttl w ≡ false)
        ↔ IsNotLater (services.now w) (add_int64 (add_int64 timestamp ttl) (pos 62135596800))
  unfolding is_expired after unix
  fresh_iff timestamp ttl w = not_later_iff (services.now w).sec _ (services.now w).nsec

  checked_response :
      (error : Option Error) (code : ℕ) (refused : Error) (r : Result ℤ) (timestamp : ℤ)
      → (if is_some error || not (code == 200) then err refused else r) ≡ ok timestamp
      → (error ≡ none) × (code ≡ 200) × (r ≡ ok timestamp)
  checked_response (some x) code refused r timestamp e = differ_err refused timestamp e
  checked_response none code refused r timestamp e = elim (Bool-cases (code == 200)) [
    | inl good ↦ (refl, (nat_beq_iff code 200).0 good, rw good at e)
    | inr bad ↦ differ_err refused timestamp (rw bad at e)
  ]

  -- What a response that gives a timestamp is.
  block_of_iff :
      (response : Response) (timestamp : ℤ)
      → (block_of services response ≡ ok timestamp) ↔ (
          (response.error ≡ none)
          × (response.code ≡ 200)
          × (services.unmarshal_timestamp response.buff ≡ ok timestamp))
  unfolding block_of
  block_of_iff response timestamp = (
    λ e. checked_response response.error response.code _ _ timestamp e,
    λ (fine, code, read). given response.error response.code _ _ fine code ∙ read,
  )
    where
      given :
          (error : Option Error) (code : ℕ) (refused : Error) (r : Result ℤ)
          → error ≡ none
          → code ≡ 200
          → (if is_some error || not (code == 200) then err refused else r) ≡ r
      given error code refused r fine good = rw fine (rw good refl)

  fetch_timestamp-Answers :
      (hash : Bytes) (c : C) (w : W) (timestamp : ℤ) (end : C × W)
      → fetch_timestamp services cacher hash (c, w) ≡ (ok timestamp, end)
      → Answers hash w timestamp end.1 × (cacher.put hash (int64 timestamp) c ≡ end.0)
  unfolding fetch_timestamp get_block_by_hash
  fetch_timestamp-Answers hash c w timestamp end e =
      remembered (services.get_http (blocks_endpoint ++ hash) w) refl e
    where
      kept_answer :
          (r : Result ℤ) (w' : W)
          → remember services cacher hash (r, w') c ≡ (ok timestamp, end)
          → (r ≡ ok timestamp) × (w' ≡ end.1) × (cacher.put hash (int64 timestamp) c ≡ end.0)
      kept_answer (ok t) w' e =
          let value = ok-injective t timestamp (ap (λ x. x.0) e) in
          (
            ap ok value,
            ap (λ x. x.1.1) e,
            ap (λ v. cacher.put hash (int64 v) c) (sym value) ∙ ap (λ x. x.1.0) e,
          )
      kept_answer (err x) w' e = differ_err x timestamp (ap (λ x. x.0) e)
      kept_answer panic w' e = differ_panic timestamp (ap (λ x. x.0) e)

      remembered :
          (answer : Response × W)
          → services.get_http (blocks_endpoint ++ hash) w ≡ answer
          → remember services cacher hash (block_of services answer.0, answer.1) c
            ≡ (ok timestamp, end)
          → Answers hash w timestamp end.1 × (cacher.put hash (int64 timestamp) c ≡ end.0)
      remembered (response, w') asked e =
          let (read, world, kept) = kept_answer (block_of services response) w' e in
          let (fine, code, given) = (block_of_iff response timestamp).0 read in
          ((response, asked ∙ ap (λ x. (response, x)) world, fine, code, given), kept)

  timestamp_of-HasTimestamp :
      (hash : Bytes) (o : Option Cached) (s : C × W) (timestamp : ℤ) (end : C × W)
      → cacher.get hash s.0 ≡ o
      → timestamp_of services cacher hash o s ≡ (ok timestamp, end)
      → HasTimestamp hash s timestamp end
  timestamp_of-HasTimestamp hash none s timestamp end held e =
      let (answers, kept) = fetch_timestamp-Answers hash s.0 s.1 timestamp end e in
      inr (held, answers, kept)
  timestamp_of-HasTimestamp hash (some (int64 t)) s timestamp end held e =
      let value = ok-injective t timestamp (ap (λ x. x.0) e) in
      inl (held ∙ ap (λ v. some (int64 v)) value, ap (λ x. x.1) e)
  timestamp_of-HasTimestamp hash (some another) s timestamp end held e =
      differ_err _ timestamp (ap (λ x. x.0) e)

  HasTimestamp-found :
      (hash : Bytes) (s : C × W) (timestamp : ℤ) (end : C × W)
      → HasTimestamp hash s timestamp end
      → get_block_timestamp services cacher hash s ≡ (ok timestamp, end)
  unfolding get_block_timestamp fetch_timestamp get_block_by_hash
  HasTimestamp-found hash s timestamp end (inl (held, same)) = rw held (rw same refl)
  HasTimestamp-found hash s timestamp end (inr (held, (response, asked, fine, code, read), kept)) =
      rw held
        (rw asked (rw ((block_of_iff response timestamp).1 (fine, code, read)) (rw kept refl)))

  -- The server accepts a token exactly when the token's block has a timestamp, which is in the cache or
  -- which the chain gives with the status 200, from which the time to live has not passed, and a key
  -- that belongs to the token's address has signed the token's message or the older one. A timestamp
  -- that was asked for is in the cache then; nothing else changes.
  pub validate_iff :
      (token : AuthToken) (s end : C × W)
      → (validate services cacher token s ≡ (ok tt, end))
        ↔ (IsInTime token s end × IsSignedByAddress services token)
  unfolding get_block_timestamp
  validate_iff token s end = (sound, complete)
    where
      sound :
          validate services cacher token s ≡ (ok tt, end)
          → IsInTime token s end × IsSignedByAddress services token
      sound e =
          let ((timestamp, found, fresh), signed) =
            (validate-IsFresh services cacher token s end).0 e in
          (
            (
              timestamp,
              timestamp_of-HasTimestamp token.block_hash _ s timestamp end refl found,
              (fresh_iff timestamp token.ttl end.1).0 fresh,
            ),
            signed,
          )

      complete :
          IsInTime token s end × IsSignedByAddress services token
          → validate services cacher token s ≡ (ok tt, end)
      complete ((timestamp, has, in_time), signed) =
          (validate-IsFresh services cacher token s end).1 (
            (
              timestamp,
              HasTimestamp-found token.block_hash s timestamp end has,
              (fresh_iff timestamp token.ttl end.1).1 in_time,
            ),
            signed,
          )
