-- ===== src/BlockchainProxy/Final.antt =====
-- What is read only from a shard that is final.
use mx_sdk_erdgo.Prelude.{
  ℕ, ◌≡◌, ◌↔◌, refl, sym, ap, ◌∙◌, String, true, not, Bool-cases, inl, inr, Option, none, some,
  if◌then◌else◌,
}
use mx_sdk_erdgo.Prelude.Exec.{Result, ok, lift, call}
use mx_sdk_erdgo.Prelude.Success.{bind-ok, differ_err}
use mx_sdk_erdgo.Chain.{Account, Address, Bytes, PubkeyConverter}
use mx_sdk_erdgo.Builders.{is_valid}
use mx_sdk_erdgo.VmQuery.{VmValueRequest, VmOutput}
use mx_sdk_erdgo.BaseProxy.{BaseProxy, get_shard_of_address}
use mx_sdk_erdgo.Endpoints.{account, vm_values}
use mx_sdk_erdgo.BlockchainProxy.{
  BlockchainProxy, Reply, fetch, post_json, check_shard_of, check_final_state,
  check_shard_finalization, to_uint64,
}
use mx_sdk_erdgo.BlockchainProxy.Accounts.{checked_text, get_account}
use mx_sdk_erdgo.BlockchainProxy.Queries.{VmValueRequestWithOptionalParameters, execute_vm_query}

checked_text-ok :
    (converter : PubkeyConverter) (address : Option Address) (bech32 : String)
    → checked_text converter address ≡ ok bech32
    → (known : Address) × (address ≡ some known)
      × (is_valid known ≡ true)
      × (converter.encode known ≡ ok bech32)
unfolding checked_text
checked_text-ok converter none bech32 e = differ_err _ _ e
checked_text-ok converter (some known) bech32 e = elim (Bool-cases (is_valid known)) [
  | inl valid ↦ (known, refl, valid, rw valid at e)
  | inr invalid ↦ differ_err _ _ (rw invalid at e)
]

module _ {W : Type 0} (ep : BlockchainProxy W) where
  check_final_state-checks :
      (address : String) (s : BaseProxy × W)
      → ep.finality_check ≡ true
      → check_final_state ep address s ≡ check_shard_of ep address s
  unfolding check_final_state
  check_final_state-checks address s checks =
      ap (λ b. if◌then◌else◌ (not b) (λ s. (ok tt, s)) (check_shard_of ep address) s) checks

  -- The shard of the text is computed, and the finality provider has then found it final, for the
  -- allowed distance. `middle` is the state behind that.
  abbrev pub IsFoundFinal : String → BaseProxy × W → BaseProxy × W → Type 0
  IsFoundFinal bech32 s middle =
      (shard : ℕ) × (base : BaseProxy) × (w : W) × (get_shard_of_address ep.endpoints.provider
          ep.services bech32 s
        ≡ (ok shard, (base, w)))
      × (middle.0 ≡ base)
      × (check_shard_finalization ep ep.finality_provider shard
            (to_uint64 ep.allowed_delta_to_final) w
          ≡ (ok tt, middle.1))

  check_shard_of-ok :
      (bech32 : String) (s middle : BaseProxy × W)
      → check_shard_of ep bech32 s ≡ (ok tt, middle)
      → IsFoundFinal bech32 s middle
  unfolding check_shard_of
  check_shard_of-ok bech32 s middle e =
      let (shard, (base, w), computed, final) =
        bind-ok (get_shard_of_address ep.endpoints.provider ep.services bech32) _ s tt middle e in
      (shard, base, w, computed, ap (λ r. r.1.0) (sym final), split_call _ _ _ final)
    where
      split_call :
          (r : Result (Unit {0}) × W) (base : BaseProxy) (end : BaseProxy × W)
          → ◌≡◌ {A = Result (Unit {0}) × (BaseProxy × W)} (r.0, (base, r.1)) (ok tt, end)
          → r ≡ (ok tt, end.1)
      split_call r base end e = ap (λ x. (x.0, x.1.1)) e

  final-check_shard_of :
      (bech32 : String) (s middle : BaseProxy × W)
      → IsFoundFinal bech32 s middle
      → check_shard_of ep bech32 s ≡ (ok tt, middle)
  unfolding check_shard_of
  final-check_shard_of bech32 s middle (shard, base, w, computed, same, final) =
      rw computed (rw final (rw same refl))

  -- Where finality is checked, `GetAccount` succeeds exactly for a valid address that has a text, whose
  -- shard is computed, and is then found final by the provider, for the allowed distance, and for which
  -- the request for the account then succeeds, in the state that the check has left.
  pub get_account-final :
      (unmarshal : Bytes → Result (Reply (Option Account))) (address : Option Address)
      (holder : Option Account) (s end : BaseProxy × W)
      → ep.finality_check ≡ true
      → (get_account ep unmarshal address s ≡ (ok holder, end)) ↔ (
          (known : Address) × (bech32 : String) × (middle : BaseProxy × W) × (address ≡ some known)
          × (is_valid known ≡ true)
          × (ep.services.converter.encode known ≡ ok bech32)
          × IsFoundFinal bech32 s middle
          × (call (fetch ep unmarshal (account bech32)) middle ≡ (ok holder, end)))
  unfolding get_account checked_text
  get_account-final unmarshal address holder s end checks = (sound, complete)
    where
      sound :
          get_account ep unmarshal address s ≡ (ok holder, end)
          → (known : Address) × (bech32 : String) × (middle : BaseProxy × W) × (address
              ≡ some known)
            × (is_valid known ≡ true)
            × (ep.services.converter.encode known ≡ ok bech32)
            × IsFoundFinal bech32 s middle
            × (call (fetch ep unmarshal (account bech32)) middle ≡ (ok holder, end))
      sound run =
          let (bech32, s', text, rest) =
            bind-ok (lift (checked_text ep.services.converter address)) _ s holder end run in
          let (known, given, valid, encoded) =
            checked_text-ok ep.services.converter address bech32 (ap (λ r. r.0) text) in
          let start : s ≡ s' = ap (λ r. r.1) text in
          let (done, middle, check, fetched) =
            bind-ok (check_final_state ep bech32) _ s' holder end rest in
          (
            known,
            bech32,
            middle,
            given,
            valid,
            encoded,
            check_shard_of-ok bech32 s middle (
                ap (check_shard_of ep bech32) start
                ∙ sym (check_final_state-checks bech32 s' checks)
                ∙ check),
            fetched,
          )

      complete :
          ((known : Address) × (bech32 : String) × (middle : BaseProxy × W) × (address ≡ some known)
            × (is_valid known ≡ true)
            × (ep.services.converter.encode known ≡ ok bech32)
            × IsFoundFinal bech32 s middle
            × (call (fetch ep unmarshal (account bech32)) middle ≡ (ok holder, end)))
          → get_account ep unmarshal address s ≡ (ok holder, end)
      complete (known, bech32, middle, given, valid, encoded, final, fetched) =
          let checked =
            check_final_state-checks bech32 s checks ∙ final-check_shard_of bech32 s middle final in
          rw given (rw valid (rw encoded (rw checked fetched)))

  -- Likewise a query of a contract is sent only after the shard of the contract was found to be final.
  pub execute_vm_query-final :
      (marshal : VmValueRequestWithOptionalParameters → Result Bytes)
      (unmarshal : Bytes → Result (Reply (Option VmOutput))) (vm_request : VmValueRequest)
      (output : Option VmOutput) (s end : BaseProxy × W)
      → ep.finality_check ≡ true
      → execute_vm_query ep marshal unmarshal vm_request s ≡ (ok output, end)
      → (middle : BaseProxy × W) × (check_shard_of ep vm_request.address s ≡ (ok tt, middle))
        × (call
              (post_json ep unmarshal vm_values (
                marshal record {
                  vm_value_request = vm_request;
                  same_sc_state = ep.same_sc_state;
                  should_be_synced = ep.should_be_synced;
                }))
              middle
            ≡ (ok output, end))
  unfolding execute_vm_query
  execute_vm_query-final marshal unmarshal vm_request output s end checks run =
      let (done, middle, check, rest) =
        bind-ok (check_final_state ep vm_request.address) _ s output end run in
      (middle, sym (check_final_state-checks vm_request.address s checks) ∙ check, rest)
