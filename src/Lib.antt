-- ===== src/Lib.antt =====
-- A model of the core of the service: the ledger of diamonds and daily quotas, the payments that
-- fill it, the outbox that delivers generation submissions, the terminal states of their steps, the price
-- and VIP rules, and the retry delays.
--
-- A creation asks internal/biz/entitlement for its price and its user's daily benefits, reserves
-- that price or a unit of the quota in internal/biz/ledger, and enqueues an event in
-- internal/biz/outbox, in one transaction. Workers claim events under a lease, deliver, requeue
-- (internal/worker/submission_backoff.go says when) or set them aside for attention, and a failed
-- creation has its reservation reversed.
--
-- Common holds what the source takes from Go: integers with the wrap-around of int32 and int64
-- (Common/Int), strings as lists of bytes (Common/Text, Common/Case), results (Common/Result), code that reads
-- and writes a store (Common/Action), and instants as nanoseconds since the zero time
-- (Common/Clock).
--
-- Mongo states the documented behaviour of MongoDB, which is not part of the repository: a
-- collection whose documents a unique index tells apart, FindOneAndUpdate with and without an
-- upsert, a second index, and a transaction. A
-- call may fail without an answer, and then nothing is assumed of what it wrote. Tests/Memory,
-- Tests/Slot and Tests/Cell give collections with these laws.
--
-- Ledger: Model and Usecase are internal/biz/ledger (Reserve, ReserveInTx, Reverse, ReverseInTx,
-- Confiscate, ConfiscateInTx, FindReservation, CurrentDiamondBalance), over any repository.
-- Contract says what the use case counts on of a repository, as effects on the facts of a store.
-- Documents and Storage are internal/data/ledger_repository.go with internal/data/model/ledger.go;
-- Storage/Effects, Accounts, Writes and Refinement are about that contract, Storage/Answers,
-- Progress and Reversible about a database that answers every call.
-- SameCommand, Reserve, Settle, Reverse, Confiscate and RoundTrip are about single operations; Transactions,
-- Invariant and History about sequences of commands.
--
-- Payments: Model and Rules are order.go, receipt.go and the channel of checkout.go of
-- internal/biz/payments (FreezeOrder, ValidatePending, Normalize, SameFact); Service is service.go
-- there (SettleVerifiedOrder, applyReceipt), Callback is callback.go with callback_nonce.go and
-- internal/data/paycores_callback_nonce_repository.go, Checkout and Checkout/PayCores are
-- checkout.go. Contract says what they count on of a repository; Documents and Storage are
-- internal/data/payment_repository.go, which Storage/Effects, Credits, Products, Refinement and
-- Progress join to that contract. Effects, Settle, Failures, Replay and Books are about
-- settlements, Freeze, StorePurchase, Checkout/Pending and Checkout/Bound about the orders of
-- checkouts. What other processes commit between a failed
-- transaction and the reads behind it, in the wait for an order, or while PayCores is asked, is an
-- argument. A callback nonce is held for two minutes, after which the database may remove it.
-- SHA-256, the random ids, the answer of PayCores and the Unicode case tables are parameters.
--
-- Outbox: Event and Transitions are internal/biz/outbox/model.go, Redrive is redrive.go there;
-- Documents and Storage are internal/data/outbox_repository.go with
-- internal/data/model/outbox.go (Enqueue, Claim, ClaimByType, ClaimByIDAndType, RenewLease,
-- Requeue, MarkDelivered, MarkFailed, MarkNeedsAttention, FindForRedrive, RedriveAttention).
-- Identifiers and Lifecycle are about the events; Waiting, Claim, Lease, Reopen and Runs about the
-- repository, Evolves and Runs about any interleaving of the calls of any number of workers.
--
-- Generation: Identity, ResultRef, Terminal and Payloads are provider_terminal.go,
-- provider_terminal_settlement.go, provider_result_materialize.go and the checks of
-- provider_inbox.go and provider_inbox_consumer.go in internal/biz/generation (the terminal slot of
-- a step, ApplyProviderTerminal, and the payloads of the events behind it); Steps and Storage are
-- ApplyProviderTerminal of internal/data/generation_callback_repository.go with what it calls, whose
-- three attempts are the loop of the source. Apply, Writes, Schedules, EventIds, Commit,
-- Conclusion and Outcome are about one call, Ends and OneEnd about any sequence of them, Canonical
-- about the payloads. net/url and encoding/json are parameters.
--
-- Creations/Plan is a part of internal/biz/creations: ValidatePlan of model.go, and
-- quotaReservationFor, firstReadyStep and the steps of newCreationFacts of usecase.go, with
-- google/uuid and the routes of the steps as parameters. Creations/Quota joins it to the
-- entitlements and to the ledger.
--
-- Entitlement is internal/biz/entitlement, Worker/Backoff is
-- internal/worker/submission_backoff.go.
--
-- No model needs fuel: every function is structural. Sums and differences of int64 balances and
-- int32 uses in the database are exact integers, since the filters of the source bound them below
-- and the database refuses what leaves 64 bits (a database that answers, in Storage/Progress and
-- Reversible, is one whose balances stay within). Attempt counts wrap at int32 in the methods; in
-- the database they grow, and a document that leaves int32 fails to decode. MongoDB
-- keeps and compares instants in whole milliseconds: the outbox, where leases depend on it, rounds
-- every instant that it stores or compares (Common/Clock.stored_time); elsewhere instants are only
-- copied, and are kept exact. A transaction that fails has left the store alone or,
-- where the driver does not know the result of the commit, may have kept what a callback without
-- error wrote; its error is then the general one (repository_error, store_error), on which no
-- caller retries. encoding/json, crypto/rand
-- and the time zone database are parameters. Contexts, logging, and the components named as not
-- modelled in the project's manifest are left out.
pub mod Common
pub mod Mongo
pub mod Worker
pub mod Entitlement
pub mod Generation
pub mod Outbox
pub mod Payments
pub mod Ledger
pub mod Creations
pub mod Tests
