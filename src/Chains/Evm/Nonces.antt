-- ===== src/Chains/Evm/Nonces.antt =====
-- When BuildTransaction of internal/chains/evm/evm.go moves its nonces.
use mpc_custody.Prelude.{
  ℕ, ◌+◌, ◌%◌, ◌^◌, ◌≡◌, refl, Bool, true, false, ◌&&◌, [], arith, if◌then◌else◌,
}
use mpc_custody.Go.Str.{Str, str_eq}
use mpc_custody.Go.Dict.{Dict, insert}
use mpc_custody.Go.Exec.{Result, ok, err, Exec, ◌>>=◌, pure, lift, continue}
use mpc_custody.Wallet.Types.{Wallet, TransactionRequest, RawTransaction}
use mpc_custody.Wallet.Interfaces.{Context}
use mpc_custody.Chains.Evm.{
  Outside, Adapter, State, EvmTransactionPayload, nonce_of, next_nonce, new_payload, outside,
  fill_locally, build_transaction,
}

abbrev pub is_ok : {A : Type 0} → Result A → Bool
is_ok (ok _) = true
is_ok (err _) = false

-- One nonce further for an address, on a uint64.
abbrev pub advance : Str → Dict ℕ → Dict ℕ
advance address nonces = insert address ((nonce_of address nonces + 1) % 2 ^ 64) nonces

-- The nonces after an action, by whether it is answered: moved if so and `local`, else as they were.
abbrev counted : {A : Type 0} → Bool → Str → Result A → Dict ℕ → Dict ℕ
counted local address r nonces = if local && is_ok r then advance address nonces else nonces

record Counts {X A : Type 0} (local : Bool) (address : Str) (m : Exec (State X) A) : Type 0 where
  at : (w : State X) → (m w).1.nonces ≡ counted local address (m w).0 w.nonces

module _ {X A B : Type 0} (local : Bool) (address : Str) (f : A → Exec (State X) B)
    (h : (a : A) → Counts local address (f a)) where
  continue-counted :
      (r : Result A) (w : State X)
      → (continue r f w).1.nonces ≡ counted local address (continue r f w).0 w.nonces
  continue-counted (ok a) w = (h a).at w
  continue-counted (err e) w = ground arith

  Counts-outside : (m : Exec X A) → Counts local address (outside m >>= f)
  unfolding ◌>>=◌
  Counts-outside m = record {
    at = λ w. let r = m w.external in continue-counted r.0 (record w { external = r.1 });
  }

  Counts-lift : (r : Result A) → Counts local address (lift r >>= f)
  unfolding ◌>>=◌
  Counts-lift r = record { at = continue-counted r }

module _ {X : Type 0} where
  filled :
      (request : TransactionRequest) (p : EvmTransactionPayload)
      (f : EvmTransactionPayload → RawTransaction)
      → Counts {X = X} true p.from (fill_locally request p >>= λ q. pure (f q))
  unfolding fill_locally ◌>>=◌ next_nonce
  filled request p f = record { at = λ w. ground arith }

  fetched :
      (address : Str) (m : Exec X EvmTransactionPayload)
      (f : EvmTransactionPayload → RawTransaction)
      → Counts false address (outside m >>= λ q. pure (f q))
  fetched address m f =
      Counts-outside false address (λ q. pure (f q)) (λ q. record { at = λ w. refl }) m

  either_way :
      (local : Bool) (address : Str) (m n : Exec (State X) EvmTransactionPayload)
      (f : EvmTransactionPayload → RawTransaction)
      → Counts true address (m >>= λ q. pure (f q))
      → Counts false address (n >>= λ q. pure (f q))
      → Counts local address ((if local then m else n) >>= λ q. pure (f q))
  either_way true address m n f h k = h
  either_way false address m n f h k = k

-- BuildTransaction moves the nonce of the source's address one further, on a uint64, exactly when it
-- answers with a transaction and no node is configured; otherwise the nonces stay as they were.
pub build_transaction_nonces :
    {X : Type 0} (o : Outside X) (a : Adapter) (ctx : Context) (source : Wallet)
    (request : TransactionRequest) (w : State X)
    → (build_transaction o a ctx source request w).1.nonces ≡ (
        if str_eq a.rpc_url [] && is_ok (build_transaction o a ctx source request w).0
        then advance source.address w.nonces
        else w.nonces)
unfolding build_transaction new_payload
build_transaction_nonces o a ctx source request w =
    let local = str_eq a.rpc_url [] in
    let steps =
      Counts-outside local source.address _
        (λ _.
          Counts-lift local source.address _
            (λ value.
              Counts-outside local source.address _
                (λ created.
                  either_way local source.address _ _ _ (filled request _ _)
                    (fetched source.address _ _))
                o.now)
            _)
        (o.done ctx) in
    steps.at w
