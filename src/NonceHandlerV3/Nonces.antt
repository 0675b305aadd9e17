-- ===== src/NonceHandlerV3/Nonces.antt =====
-- The nonces that `ApplyNonceAndGasPrice` gives to a list of transactions.
use mx_sdk_erdgo.Prelude.{
  ℕ, ◌+◌, ◌≤◌, ◌<◌, ◌≡◌, refl, true, false, none, inl, inr, List, [], ◌∷◌, arith, length, max, ◌==◌,
  nat_eq, Bool-cases,
}
use mx_sdk_erdgo.Prelude.Exec.{ok, err, panic, Error}
use mx_sdk_erdgo.Chain.{u64, FrontendTransaction, Account, NetworkConfig, Proxy}
use mx_sdk_erdgo.NonceHandlerV3.{
  AddressNonceHandler, no_nonce, compute_nonce, apply_gas_price_if_required,
  apply_nonce_and_gas_price,
}

module _ {W : Type 0} (proxy : Proxy W) where
  compute_cached :
      (anh : AddressNonceHandler) (w : W)
      → anh.nonce + 1 < u64
      → compute_nonce proxy (anh, w)
        ≡ (ok (anh.nonce + 1), (record anh { nonce = anh.nonce + 1 }, w))
  unfolding compute_nonce
  compute_cached anh w lt =
      let cached : (anh.nonce == no_nonce) ≡ false = ground arith in rw cached (ground arith)

  -- Where no nonce is cached the account's is taken, and an error leaves it so.
  pub compute_fetched :
      (anh : AddressNonceHandler) (w w' : W) (account : Account)
      → anh.nonce ≡ no_nonce
      → proxy.get_account anh.address w ≡ (ok account, w')
      → compute_nonce proxy (anh, w)
        ≡ (ok account.nonce, (record anh { nonce = account.nonce }, w'))
  unfolding compute_nonce
  compute_fetched anh w w' account e fetched =
      let missing : (anh.nonce == no_nonce) ≡ true = ground arith in rw missing (rw fetched refl)

  -- A failed configuration request is a nil dereference, at the first transaction that finds no
  -- cached gas price.
  apply_panics :
      (anh : AddressNonceHandler) (w w' : W) (tx : FrontendTransaction)
      (txs : List FrontendTransaction) (e : Error)
      → anh.nonce + 1 < u64
      → anh.gas_price ≡ 0
      → proxy.get_network_config w ≡ (err e, w')
      → (apply_nonce_and_gas_price proxy (tx ∷ txs) (anh, w)).0 ≡ panic
  unfolding apply_nonce_and_gas_price
  apply_panics anh w w' tx txs e lt free failed =
      let missing : (anh.gas_price == 0) ≡ true = ground arith in
      rw (compute_cached anh w lt) (rw missing (rw failed refl))

-- The transactions as they came, but for nonces from `n` on and gas prices that are not lower.
abbrev pub IsApplied : ℕ → List FrontendTransaction → List FrontendTransaction → Type 0
IsApplied n [] [] = Unit
IsApplied n [] (tx' ∷ txs') = ⊥
IsApplied n (tx ∷ txs) [] = ⊥
IsApplied n (tx ∷ txs) (tx' ∷ txs') =
    (tx' ≡ record tx { nonce = n; gas_price = tx'.gas_price })
    × (tx.gas_price ≤ tx'.gas_price)
    × IsApplied (n + 1) txs txs'

module _ {W : Type 0} (proxy : Proxy W) (config : NetworkConfig)
    (configured : (w : W) → (proxy.get_network_config w).0 ≡ ok config) where
  gas_price_run :
      (tx : FrontendTransaction) (anh : AddressNonceHandler) (w : W)
      → (price : ℕ) × (w' : W) × (apply_gas_price_if_required proxy tx (anh, w) ≡ (
        ok (record tx { gas_price = max price tx.gas_price }),
        (record anh { gas_price = price }, w'),
      ))
  unfolding apply_gas_price_if_required
  gas_price_run tx anh w = elim (Bool-cases (anh.gas_price == 0)) [
    | inl missing ↦
        (config.min_gas_price, (proxy.get_network_config w).1, rw missing (rw (configured w) refl))
    | inr cached ↦ (anh.gas_price, w, rw cached refl)
  ]

  -- The call returns with no error, and leaves the transactions so, and this nonce cached.
  abbrev pub Applies : ℕ → List FrontendTransaction → ℕ → AddressNonceHandler → W → Type 0
  Applies n txs last anh w =
      (txs' : List FrontendTransaction) × (anh' : AddressNonceHandler) × (w' : W)
      × (apply_nonce_and_gas_price proxy txs (anh, w) ≡ (ok (txs', none), (anh', w')))
      × IsApplied n txs txs'
      × (anh'.nonce ≡ last)

  -- One round, behind the nonce that it computed.
  apply_round :
      (n last : ℕ) (tx : FrontendTransaction) (txs : List FrontendTransaction)
      (anh : AddressNonceHandler) (w w₁ : W)
      → compute_nonce proxy (anh, w) ≡ (ok n, (record anh { nonce = n }, w₁))
      → ((next : AddressNonceHandler) (w₂ : W) → next.nonce ≡ n → Applies (n + 1) txs last next w₂)
      → Applies n (tx ∷ txs) last anh w
  unfolding apply_nonce_and_gas_price
  apply_round n last tx txs anh w w₁ computed rest =
      let (price, w₂, e) = gas_price_run (record tx { nonce = n }) (record anh { nonce = n }) w₁ in
      let (txs', anh', w', e', applied, left) =
        rest (record anh { nonce = n; gas_price = price }) w₂ refl in
      (
        record tx { nonce = n; gas_price = max price tx.gas_price } ∷ txs',
        anh',
        w',
        rw computed (rw e (rw e' refl)),
        (refl, omega arith, applied),
        left,
      )

  apply_from :
      (txs : List FrontendTransaction) (anh : AddressNonceHandler) (w : W) (n last : ℕ)
      → anh.nonce + 1 ≡ n
      → anh.nonce + length txs ≡ last
      → last < u64
      → Applies n txs last anh w
  unfolding apply_nonce_and_gas_price
  apply_from [] anh w n last en el fits = ([], anh, w, refl, tt, omega arith)
  apply_from (tx ∷ txs) anh w n last en el fits =
      apply_round n last tx txs anh w w (rw en at (compute_cached proxy anh w (omega arith)))
        λ next w₂ e. apply_from txs next w₂ (n + 1) last (omega arith) (omega arith) fits

  -- With a cached nonce c, and a proxy that always answers with a configuration, the call returns with
  -- no error, if no nonce passes 2^64: the transactions get the nonces from c + 1 on, in their order,
  -- each one once, and gas prices that are not below their own, and nothing else of them changes; c
  -- plus their number is cached then.
  apply_cached :
      (txs : List FrontendTransaction) (anh : AddressNonceHandler) (w : W)
      → anh.nonce + length txs < u64
      → Applies (anh.nonce + 1) txs (anh.nonce + length txs) anh w
  apply_cached txs anh w fits = apply_from txs anh w _ _ refl refl fits

  -- With no cached nonce, an account that is fetched, and a proxy that always answers with a
  -- configuration, the call returns with no error, if no nonce passes 2^64: the transactions get the
  -- nonces from the account's on, in their order, each one once, and gas prices that are not below
  -- their own, and nothing else of them changes; the last nonce is cached then.
  pub apply_fetched :
      (tx : FrontendTransaction) (txs : List FrontendTransaction) (anh : AddressNonceHandler)
      (w w₁ : W) (account : Account)
      → anh.nonce ≡ no_nonce
      → proxy.get_account anh.address w ≡ (ok account, w₁)
      → account.nonce + length txs < u64
      → Applies account.nonce (tx ∷ txs) (account.nonce + length txs) anh w
  apply_fetched tx txs anh w w₁ account missing fetched fits =
      apply_round account.nonce (account.nonce + length txs) tx txs anh w w₁
        (compute_fetched proxy anh w w₁ account missing fetched)
        λ next w₂ e. apply_from txs next w₂ _ _ (omega arith) (omega arith) fits
