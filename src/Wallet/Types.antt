-- ===== src/Wallet/Types.antt =====
-- internal/wallet/types.go: the domain models, field by field.
use mpc_custody.Prelude.{ℕ, Bool, true, false, Option, List, length}
use mpc_custody.Go.Str.{Str, bytes}
use mpc_custody.Go.Int.{ℤ}
use mpc_custody.Go.Dict.{Dict}
use mpc_custody.Go.Json.{Json}

-- An instant of time.Time, counted from a fixed one.
abbrev pub Time : Type 0
Time = ℕ

-- Any string: a request may name a chain that has no adapter.
abbrev pub Chain : Type 0
Chain = Str

unfoldable pub chain_bitcoin : Chain
unfolding bytes
chain_bitcoin = bytes "bitcoin"

unfoldable pub chain_evm : Chain
unfolding bytes
chain_evm = bytes "evm"

-- `unset` is the empty string, which the zero value of a proposal has.
pub data TransactionStatus : Type 0 where
  proposed signed broadcasted failed unset : TransactionStatus

pub data AuditEventType : Type 0 where
  wallet_created transaction_proposed transaction_approved : AuditEventType
  transaction_signed transaction_broadcast transaction_failed : AuditEventType

pub record Wallet : Type 0 where
  pub id : Str
  pub chain : Chain
  pub address : Str
  pub public_key : Str
  pub created_at : Time

pub record WalletMaterial : Type 0 where
  pub address : Str
  pub public_key : Str

pub record Signature : Type 0 where
  pub signed_transaction : Str
  pub signature_id : Str

pub record Utxo : Type 0 where
  pub tx_id : Str
  pub vout : ℕ
  pub amount_sats : ℤ
  pub script_pub_key : Str

pub record TransactionRequest : Type 0 where
  pub wallet_id : Str
  pub to : Str
  pub amount : Str
  pub fee_rate_sats : ℤ
  pub gas_limit : ℕ
  pub max_fee_per_gas : Str
  pub call_data : Str
  pub utxos : List Utxo
  pub metadata : Option Json

pub record Approval : Type 0 where
  pub signer_id : Str
  pub created_at : Time

pub record RawTransaction : Type 0 where
  pub chain : Chain
  pub payload : Json

pub record AuditEvent : Type 0 where
  pub id : Str
  pub event_type : AuditEventType
  pub actor : Str
  pub resource_type : Str
  pub resource_id : Str
  pub chain : Chain
  pub metadata : Option Json
  pub created_at : Time

pub record AuditFilter : Type 0 where
  pub resource_id : Str
  pub limit : ℤ

pub record IdempotencyRecord : Type 0 where
  pub scope : Str
  pub key : Str
  pub resource_type : Str
  pub resource_id : Str
  pub created_at : Time

-- `status` takes no other value: the code writes only these four.
pub record TransactionProposal : Type 0 where
  pub id : Str
  pub wallet_id : Str
  pub chain : Chain
  pub status : TransactionStatus
  pub request : TransactionRequest
  pub raw_transaction : RawTransaction
  pub approvals : Dict Approval
  pub signed_transaction : Str
  pub broadcast_hash : Str
  pub error : Str
  pub trace : Dict Str
  pub created_at : Time
  pub updated_at : Time

abbrev pub approvals_count : TransactionProposal → ℕ
approvals_count p = length p.approvals

abbrev pub is_proposed : TransactionStatus → Bool
is_proposed proposed = true
is_proposed _ = false

abbrev pub is_signed : TransactionStatus → Bool
is_signed signed = true
is_signed _ = false
