-- ===== src/Lib.antt =====
-- A model of the MPC custody service: wallets are created with a signing backend, transactions are
-- proposed against a policy, allowed signers approve them, the second approval has the backend sign,
-- and the signed payload is broadcast through the adapter of its chain. Each step appends an event to
-- an audit trail and counts a metric.
--
-- The parts, and the files of the repository that they model:
--   Errors           the errors of internal/wallet/service.go and internal/store/memory.go, and those of
--                    PostgreSQL with their codes
--   Go               what is used of Go: strings as bytes, maps, int64 and big.Int, strconv, strings,
--                    sorting, JSON values, hex, and `Exec`, a function that changes a state and may fail
--   Ids              internal/ids/ids.go
--   Observability    internal/observability: Metrics is metrics.go, Tracing the traceparent header and
--                    the route labels of tracing.go, Middleware its middleware around any handler
--   Wallet.Types, Wallet.Interfaces    internal/wallet/types.go, and the interfaces of service.go:
--                    Store, ChainAdapter and SigningBackend are records of operations over any state
--   Wallet.Policy    signerAllowed and validateAmountPolicy
--   Wallet.Service   the methods of Service: Core has the registry, appendAudit and failTransaction,
--                    Creation has CreateWallet and ProposeTransaction, Signing has CoSign, Broadcast,
--                    GetTransaction and ListAuditEvents
--   Wallet.Effects   what the methods change, in terms of what the interfaces change
--   Store.Memory     internal/store/memory.go; Calls makes its methods one type, so that any
--                    interleaving of requests is a list of calls
--   Store.Postgres   internal/store/postgres.go over a database that is a parameter: Sql has what is
--                    asked of it, Tables what internal/store/migrations makes of that, Laws what the
--                    code relies on, Abstract the in-memory store that tables stand for
--   Chains.Bitcoin   internal/chains/bitcoin/bitcoin.go
--   Chains.Evm       internal/chains/evm/evm.go, over an Ethereum node that is a parameter
--   Signing          internal/signing/demo.go, over keys and signatures that are a parameter
--   Api              internal/api/server.go: Auth has requireAPIKey, Path parseTransactionPath, Server
--                    statusFor and the handlers for one transaction, Mux the other handlers and routes,
--                    Handler the mux inside the middleware, Served which request to the service a
--                    request to the server makes
--   Config           internal/config/config.go, over an environment that is a function from names
--   Cmd              cmd/custody-api/main.go: signerSet, cloneBigInt, openStore and the policy; Assembly
--                    puts both adapters, the demo backend and the service together, and Server is the
--                    HTTP server over these, from a fresh process on
--   World            the service over the in-memory store, over any adapters and backend; Requests has
--                    its methods as one type, and runs of them; Invariant is what a property of the
--                    stored proposals must be kept by, Keeping that requests then keep it, Quorum and
--                    Lifecycle are two such properties. Among is the service among other requests, and
--                    Activity has requests that overlap
--
-- The service holds a Store, a registry of adapters by chain, a SigningBackend and the metrics, and
-- reaches them through their interfaces only. A method of Go is a function of the state to a result
-- and a state: what was written before an error stays written. A function of the source has its name
-- here in lower case (CreateTransactionIdempotently is create_transaction_idempotently), and a part of
-- a long one that has a name here is given by its comment.
--
-- The two stores fill the one interface Store. A database is a record of operations, of which
-- Store.Postgres.Laws assumes this, as triples: a statement that is answered did to the tables of
-- its transaction, or of the pool, what Tables says; one that fails in a transaction leaves the
-- committed tables; a failed commit, and a failed statement on the pool that its table takes, may
-- have had its effect; a rollback leaves the committed tables. No other session writes to the tables
-- between two statements of a method, which the lock of FOR UPDATE keeps for the row that it reads.
-- What a column keeps is a parameter too: PostgreSQL has an instant in microseconds, where Go has
-- nanoseconds, and JSONB orders the keys of a document anew. The laws speak of what the columns keep,
-- and where a theorem needs that a time or a proposal is read back as it was written, it says so.
-- Store.Postgres.Sample is a database of this kind.
--
-- Bounds: an int64 is an integer, which strconv.ParseInt keeps within its range, and a big.Int is an
-- integer. No function here has fuel: every loop of the source that is modelled runs along a slice
-- or a map. Times are natural numbers, of which only the order matters, and the zero time is 0. A
-- duration of the configuration keeps the wrap-around of its int64 of nanoseconds.
--
-- What the program takes from outside is a parameter: the clock, crypto/rand, the adapters, the
-- signing backend, an Ethereum node, SHA-256, keys and their signatures, the layout of times,
-- encoding/json, the environment, PostgreSQL, and at which instants a context is done. Where these
-- are parameters of one component, another one of the list above may fill them. The store's clones
-- keep a caller from sharing a map with it, which values do not do.
--
-- The mux takes a path as it is after cleaning and decoding, without escaped segments. Not modelled:
-- log lines, how fmt prints a float64 in the text of the metrics, the listener and the
-- shutdown of the process, and the files of the deployment, which hold no logic. Mutexes are not
-- modelled either: a method of the in-memory store is one action, and so is one of the demo backend.
--
-- Requests overlap as follows. World.Requests has them one after the other. In World.Among a request
-- meets, at each of its calls of the store, what others did since the call before, as any function of
-- the state. An Activity is made of requests that each take place between two requests or between two
-- such calls, and so on inside these; an interleaving in which two requests each begin before the
-- other ends is one of World.Among only. The lifecycle is stated of requests one after the other,
-- because Broadcast writes the whole proposal that it read before its call of the adapter.
pub mod Prelude
pub mod Errors
pub mod Go
pub mod Ids
pub mod Observability
pub mod Wallet
pub mod Store
pub mod Chains
pub mod World
pub mod Api
pub mod Config
pub mod Cmd
pub mod Signing
