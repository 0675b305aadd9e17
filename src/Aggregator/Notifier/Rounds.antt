-- ===== src/Aggregator/Notifier/Rounds.antt =====
-- A round of the notifier: whom it tells of what, and what it remembers.
use mx_sdk_erdgo.Prelude.{
  ℕ, suc, ◌/◌, ◌-◌, ◌^◌, min, ltb, ◌≡◌, refl, sym, ap, ◌∙◌, inl, inr, Bool, true, false, Bool-cases,
  ◌||◌, List, [], ◌∷◌, ◌++◌, append_assoc, arith, length, length-append, write, map, if◌then◌else◌,
}
use mx_sdk_erdgo.Prelude.Exec.{ok, call, wrap_error}
use mx_sdk_erdgo.Prelude.Success.{bind-ok, ok-bind, ok-call, ok-injective}
use mx_sdk_erdgo.Aggregator.{Float64}
use mx_sdk_erdgo.Aggregator.Pairs.{Pair, trim}
use mx_sdk_erdgo.Aggregator.Notifier.{
  PriceInfo, NotifyArgs, ArgsPriceChanged, PriceNotifier, Collaborators, should_notify, notify_at,
  added, notify_args_from, price_changed_of, last_prices_after, prices_from, is_due, restarted,
  compute_notify_args_slice, tell, notify_all, get_all_prices, execute,
}

module _ {F : Type 0} (float : Float64 F) where
  -- The last price that was told, or the percentage of the pair, is next to nothing; or the change since,
  -- in percent of the last price, reaches that percentage.
  abbrev pub has_changed : Pair F → PriceInfo F → F → Bool
  has_changed pair info last =
      let percent = float.of_nat pair.percent_difference_to_notify in
      (float.is_less last float.epsilon
        || float.is_less (float.div percent (float.of_nat 100)) float.epsilon)
      || float.at_least
          (float.div (float.mul (float.abs (float.sub last info.price)) (float.of_nat 100)) last)
          percent

  -- A pair is told of in a round for all, and where its price has changed enough.
  abbrev pub is_told : Bool → Pair F → PriceInfo F → F → Bool
  is_told all pair info last = all || has_changed pair info last

  should_notify-has_changed :
      (index : ℕ) (pair : Pair F) (info : PriceInfo F) (last : F)
      → should_notify float (notify_at float index pair info last) ≡ has_changed pair info last
  unfolding should_notify
  should_notify-has_changed index pair info last = ground arith

  -- What the notifee hears, pair by pair.
  abbrev pub reported : Bool → List (Pair F) → List (PriceInfo F) → List F → List ArgsPriceChanged
  reported all [] infos lasts = []
  reported all (pair ∷ pairs) [] lasts = []
  reported all (pair ∷ pairs) (info ∷ infos) [] = []
  reported all (pair ∷ pairs) (info ∷ infos) (last ∷ lasts) =
      let rest = reported all pairs infos lasts in
      if is_told all pair info last
      then price_changed_of float (notify_at float 0 pair info last) ∷ rest
      else rest

  -- What is remembered as the last price that the notifee was told, pair by pair.
  abbrev pub remembered : Bool → List (Pair F) → List (PriceInfo F) → List F → List F
  remembered all [] infos lasts = lasts
  remembered all (pair ∷ pairs) [] lasts = lasts
  remembered all (pair ∷ pairs) (info ∷ infos) [] = []
  remembered all (pair ∷ pairs) (info ∷ infos) (last ∷ lasts) =
      let rest = remembered all pairs infos lasts in
      (if is_told all pair info last then trim float info.price pair.trim_precision else last)
      ∷ rest

  write_behind :
      (done : List F) (x v : F) (lasts : List F)
      → write (done ++ (x ∷ lasts)) (length done) v ≡ done ++ (v ∷ lasts)
  write_behind [] x v lasts = refl
  write_behind (d ∷ done) x v lasts = ap (λ xs. d ∷ xs) (write_behind done x v lasts)

  pub record IsRound (all : Bool) (pairs : List (Pair F)) (infos : List (PriceInfo F))
      (done lasts : List F) : Type 0 where
    pub slice : List (NotifyArgs F)
    pub computed : notify_args_from float all (length done) pairs infos lasts ≡ ok slice
    pub told : map (price_changed_of float) slice ≡ reported all pairs infos lasts
    pub kept :
        last_prices_after float slice (done ++ lasts) ≡ done ++ remembered all pairs infos lasts

  length-next : (done : List F) (x : F) → length (done ++ (x ∷ [])) ≡ suc (length done)
  length-next done x = length-append done (x ∷ []) ∙ omega arith

  -- One pair, behind those that are done.
  step_told :
      (all : Bool) (pair : Pair F) (pairs : List (Pair F)) (info : PriceInfo F)
      (infos : List (PriceInfo F)) (done : List F) (last : F) (lasts : List F)
      → is_told all pair info last ≡ true
      → IsRound all pairs infos (done ++ (trim float info.price pair.trim_precision ∷ [])) lasts
      → IsRound all (pair ∷ pairs) (info ∷ infos) done (last ∷ lasts)
  unfolding notify_args_from last_prices_after
  step_told all pair pairs info infos done last lasts told rest =
      let next = trim float info.price pair.trim_precision in
      record {
        slice = notify_at float (length done) pair info last ∷ rest.slice;
        computed = rw (should_notify-has_changed (length done) pair info last) (
            rw told (
              ap (added float (notify_at float (length done) pair info last) true) (
                ap (λ i. notify_args_from float all i pairs infos lasts)
                  (sym (length-next done next))
                ∙ rest.computed)));
        told =
            rw told
              (ap (λ xs. price_changed_of float (notify_at float 0 pair info last) ∷ xs) rest.told);
        kept = rw told (
            ap (last_prices_after float rest.slice)
              (write_behind done last next lasts ∙ sym (append_assoc done (next ∷ []) lasts))
            ∙ rest.kept
            ∙ append_assoc done (next ∷ []) (remembered all pairs infos lasts));
      }

  step_kept :
      (all : Bool) (pair : Pair F) (pairs : List (Pair F)) (info : PriceInfo F)
      (infos : List (PriceInfo F)) (done : List F) (last : F) (lasts : List F)
      → is_told all pair info last ≡ false
      → IsRound all pairs infos (done ++ (last ∷ [])) lasts
      → IsRound all (pair ∷ pairs) (info ∷ infos) done (last ∷ lasts)
  unfolding notify_args_from last_prices_after
  step_kept all pair pairs info infos done last lasts silent rest = record {
    slice = rest.slice;
    computed = rw (should_notify-has_changed (length done) pair info last) (
        rw silent (
          ap (added float (notify_at float (length done) pair info last) false) (
            ap (λ i. notify_args_from float all i pairs infos lasts) (sym (length-next done last))
            ∙ rest.computed)));
    told = rw silent rest.told;
    kept = rw silent (
        ap (last_prices_after float rest.slice) (sym (append_assoc done (last ∷ []) lasts))
        ∙ rest.kept
        ∙ append_assoc done (last ∷ []) (remembered all pairs infos lasts));
  }

  compared_behind :
      (all : Bool) (pairs : List (Pair F)) (infos : List (PriceInfo F)) (done lasts : List F)
      → length infos ≡ length pairs
      → length lasts ≡ length pairs
      → IsRound all pairs infos done lasts
  unfolding notify_args_from last_prices_after
  compared_behind all [] infos done lasts e f = record {
    slice = [];
    computed = refl;
    told = refl;
    kept = refl;
  }
  compared_behind all (pair ∷ pairs) [] done lasts e f =
      let impossible : ⊥ = omega arith in elim impossible [ ]
  compared_behind all (pair ∷ pairs) (info ∷ infos) done [] e f =
      let impossible : ⊥ = omega arith in elim impossible [ ]
  compared_behind all (pair ∷ pairs) (info ∷ infos) done (last ∷ lasts) e f =
      elim (Bool-cases (is_told all pair info last)) [
        | inl told ↦ step_told all pair pairs info infos done last lasts told (
            compared_behind all pairs infos
              (done ++ (trim float info.price pair.trim_precision ∷ [])) lasts (omega arith)
              (omega arith))
        | inr silent ↦ step_kept all pair pairs info infos done last lasts silent (
            compared_behind all pairs infos (done ++ (last ∷ [])) lasts (omega arith) (omega arith))
      ]

  length-remembered :
      (all : Bool) (pairs : List (Pair F)) (infos : List (PriceInfo F)) (lasts : List F)
      → length (remembered all pairs infos lasts) ≡ length lasts
  length-remembered all [] infos lasts = refl
  length-remembered all (pair ∷ pairs) [] lasts = refl
  length-remembered all (pair ∷ pairs) (info ∷ infos) [] = refl
  length-remembered all (pair ∷ pairs) (info ∷ infos) (last ∷ lasts) =
      ap suc (length-remembered all pairs infos lasts)

  module _ {W : Type 0} (others : Collaborators F W) where
    prices_from-length :
        (pairs : List (Pair F)) (infos : List (PriceInfo F)) (w w' : W)
        → prices_from float others pairs w ≡ (ok infos, w')
        → length infos ≡ length pairs
    unfolding prices_from
    prices_from-length [] infos w w' e = ap length (sym (ok-injective [] infos (ap (λ r. r.0) e)))
    prices_from-length (pair ∷ pairs) infos w w' e =
        let (price, w1, asked, rest) =
          bind-ok (wrap_error "while querying the pair" (others.fetch_price pair.base pair.quote)) _
            w infos w' e in
        let (others_found, w2, run, end) =
          bind-ok (prices_from float others pairs) _ w1 infos w' rest in
        let first : PriceInfo F = record {
          price = trim float price pair.trim_precision;
          timestamp = others.now w1 / 1000000000;
        } in
        let same : first ∷ others_found ≡ infos =
          ok-injective (first ∷ others_found) infos (ap (λ r. r.0) end) in
        ap length (sym same) ∙ ap suc (prices_from-length pairs others_found w1 w2 run)

    -- More time than the interval has passed since all pairs were told of; it is at most 2^63 - 1.
    abbrev pub has_passed : PriceNotifier F → W → Bool
    has_passed pn w =
        ltb pn.auto_send_interval (min (others.now w - pn.last_time_auto_sent) (2 ^ 63 - 1))

    -- The notifier once the prices are compared. The interval starts again where it has passed.
    abbrev pub after : PriceNotifier F → List (PriceInfo F) → W → PriceNotifier F
    after pn infos w =
        let all = has_passed pn w in
        record pn {
          last_time_auto_sent = if all then others.now w else pn.last_time_auto_sent;
          last_notified_prices = remembered all pn.pairs infos pn.last_notified_prices;
        }

    -- A round in which all prices are fetched, of a notifier with one last price for each pair: the
    -- notifee is called once, with exactly the pairs whose price has changed enough, or with all pairs if
    -- the interval has passed, in their order, or not at all if there are none. The prices of these pairs
    -- are then the last ones, and the other last prices stay; that is so before the notifee answers, and
    -- whatever it answers. There still is one last price for each pair.
    pub execute-round :
        (pn : PriceNotifier F) (infos : List (PriceInfo F)) (w w' : W)
        → length pn.last_notified_prices ≡ length pn.pairs
        → prices_from float others pn.pairs w ≡ (ok infos, w')
        → (execute float others (pn, w)
            ≡ call
                (tell float others
                  (reported (has_passed pn w') pn.pairs infos pn.last_notified_prices))
                (after pn infos w', w'))
          × (length (after pn infos w').last_notified_prices ≡ length pn.pairs)
    unfolding execute get_all_prices compute_notify_args_slice notify_all
    execute-round pn infos w w' one_each fetched =
        let all = is_due float others pn w' in
        let round =
          compared_behind all pn.pairs infos [] pn.last_notified_prices
            (prices_from-length pn.pairs infos w w' fetched) one_each in
        let asked : get_all_prices float others (pn, w) ≡ (ok infos, (pn, w')) =
          ok-call (prices_from float others pn.pairs) pn w infos w' fetched in
        let restart = restarted float others all (others.now w') pn in
        let compared : compute_notify_args_slice float others infos (pn, w')
            ≡ (ok round.slice, (restart, w')) =
          ap (λ r. (r, (restart, w'))) round.computed in
        let end : notify_all float others round.slice (restart, w')
            ≡ call (tell float others (reported all pn.pairs infos pn.last_notified_prices))
                (after pn infos w', w') =
          ap
            (λ told. call (tell float others told) (
              record restart {
                last_notified_prices = last_prices_after float round.slice pn.last_notified_prices;
              },
              w',
            ))
            round.told
          ∙ ap
              (λ kept.
                call (tell float others (reported all pn.pairs infos pn.last_notified_prices))
                  (record restart { last_notified_prices = kept }, w'))
              round.kept in
        (
          ok-bind (get_all_prices float others) _ (pn, w) infos (pn, w') asked
              ∙ ok-bind (compute_notify_args_slice float others infos) _ (pn, w') round.slice
                  (restart, w') compared
              ∙ end,
          length-remembered all pn.pairs infos pn.last_notified_prices ∙ one_each,
        )
