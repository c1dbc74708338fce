-- ===== src/Lib.antt =====
-- Verification of the Dayfi backend: the money and identity rules of the server, as definitions
-- translated from the TypeScript sources, and theorems about them.
--
-- Parts
-- + Ledger: the wallets and movements of organizations, src/modules/infra/infraLedgerService.ts with the
--   tables of migrations/sqls/20260822140000-infra-wallet-ledger-up.sql and
--   20260822210000-infra-ledger-phase2-up.sql. Ledger/Types has the records, the errors and the
--   reading of parameters (parseAmount, normalizeEnv, normalizeAsset); Ledger/Store the tables and
--   queries (ensureWalletAccount, lockWalletRow, findMovementByIdempotency, insertMovement with its
--   constraints); Ledger/Write the seven writes (creditOrgWallet, creditOrgWalletPending,
--   releasePendingToAvailable, debitOrgWallet, lockOrgFunds, releaseOrgFunds, finalizeLockedDebit),
--   which the source spells out one by one and which differ in the data of `WriteOp`; Ledger/Transfer
--   transferAvailableBalance; Ledger/Fee applyDayfiTransactionFee; Ledger/Balance getOrgBalance and
--   bootstrapOrgWallets; Ledger/History all sequences of writes and transfers.
-- + Amount: decimal texts and their minor units, src/modules/infra/infraMoneyAmount.ts.
-- + FeeQuote: the quote of a transaction fee and the check that a customer can pay it,
--   src/modules/infra/infraFeeService.ts, on top of Amount.
-- + Lifecycle: what happens to the money of collections and payouts, on top of Ledger.
--   Lifecycle/Types has the rows of infra_transactions and the helpers of
--   src/modules/infra/infraLifecycleService.ts (resolveUsdcAmount, metaUsdc, loadTx, patchTx);
--   Lifecycle/Payout lockPayoutFunds, finalizePayoutDebit and releasePayoutLock; Lifecycle/Collection
--   settleCollectionCredit; Lifecycle/Funding fundCollectionStellarWallet and
--   confirmCollectionFunding of src/modules/infra/infraStellarFundingService.ts, which
--   settleCollectionCredit calls; Lifecycle/Webhook applyInfraYellowCardWebhook and
--   applyInfraFlutterwaveWebhook, with the statuses of src/modules/payment/yellowCardStatus.ts and
--   src/modules/payment/yellowCardWebhook.ts in Lifecycle/YellowCard. Lifecycle/Payout/History runs any
--   sequence of calls on payouts, and Lifecycle/Webhook/History any sequence of those, of webhooks and of
--   settlements of collections.
-- + Settlement: confirmAndFinalize and confirmStellarSettlement of
--   src/modules/infra/infraSettlementService.ts, on top of the calls on payouts of Lifecycle, and
--   settlePayoutOnStellar in Settlement/Submit, with its checks in Settlement/Checks. Settlement/History runs any sequence of these and of all
--   that Lifecycle runs.
-- + Bulk: src/modules/infra/infraBulkService.ts. Bulk/Csv has parseBulkCsv; Bulk/Batch the rows and
--   refreshBatchAggregates; Bulk/Quote and Bulk/Preflight createBulkBatch and runPreflight; Bulk/Confirm
--   confirmBulkBatch, cancelBulkBatch and getBulkBatch. It reads the balance of Ledger and the rows of
--   Lifecycle.
-- + Transfers: createInternalTransfer of src/modules/infra/infraInternalTransferService.ts, for the
--   settlement mode INTERNAL_LEDGER, on top of Ledger, Amount and FeeQuote. Transfers/Recipient has
--   resolveRecipientOrgId, Transfers/Record the database transaction with recordTransferFee of
--   src/modules/infra/infraFeeService.ts, Transfers/Create the checks, the look-ups and the recovery.
-- + Phone: the normal form of phone numbers, src/shared/utils/phoneE164.ts.
-- + Otp: one-time codes, src/modules/four/auth/otpChallengeStore.ts and the calls of it in
--   requestOtp and verifyOtp of src/modules/four/auth/phoneAuthService.ts; Otp/History has all
--   sequences of those calls.
-- + Session: sessions by a hashed token, src/modules/four/auth/sessionService.ts.
-- + Base: shared names, texts, lists, tests and integers.
--
-- How the code is read
-- + A transaction is a function on the tables that gives a result and new tables, or an error; on an
--   error the tables are as before. The row locks make the transactions on one wallet follow each
--   other, so a history is a sequence of transactions. The first look-up by idempotency key runs
--   before the locks: the movements it reads, `seen`, are an argument of every call and may be any.
-- + Ledger amounts are natural counts of 10^-7, the scale of the NUMERIC(28, 7) columns; a number
--   that a caller passes is a count of 10^-14, or is not finite. Doubles are taken as exact, which
--   they are below 2^53 minor units. The overflow of NUMERIC(28, 7), lengths of VARCHAR columns,
--   timestamps and metadata of movements and deadlocks of the row locks are not modelled. A wallet row
--   is named by its unique organization, environment and asset, not by its UUID.
-- + Amounts of Amount are signed integers of any size, as the bigints of the source. A text is the
--   list of its character codes. toFixed of numbers from 10^21 on is left out. The decimal digits of n
--   are computed with fuel n + 1, which is enough as n has at most n + 1 digits.
-- + In Lifecycle each ledger call and each statement commits on its own, so an error takes nothing back
--   that came before it. The amount that fxService.ts converts to, and what the wallet service and the
--   Stellar network answer, are arguments. Of the metadata of a row the model has the fields that are
--   read; fields that are only written (times, labels, ids of movements) are left out.
--   Histories run the calls one after the other.
-- + In Settlement what the network, the wallets and the recipients' service answer is an argument, and
--   the payments that the network has accepted are a list. In Bulk a batch's payouts, destinations and
--   rates are arguments, and an UPDATE of each row of a batch is one step. Calls follow one another.
-- + In Transfers the ids that are drawn, the fingerprint's hash and the organization that receives the
--   fees are arguments; an amount that is passed on as a text is given by its minor units. Times,
--   labels and metadata are left out, and the answer is the row and the two balances.
-- + Change of case is modelled for the ASCII letters, of which the settings and assets are made.
-- + Times in Otp are microseconds, and a row's number stands for its generated id. The provider that
--   sends and checks codes is not part of the repository: its answers are arguments. Normalization
--   of the phone number comes before, the look-up of the user and the new session come after. The
--   histories of Otp run the calls one after the other; only `verify_race` is about calls that overlap.
-- + The hash of session tokens is a parameter of Session, of which nothing is assumed, and the random
-- part of a token is an argument. An update of rows by a unique column is an update of all rows that
-- match. Labels of devices and addresses are left out.
--
-- Not modelled: the chat assistants (dayx, azap, four with its Telegram and WhatsApp channels), the
-- payment integrations, transfers on chain, the signatures of webhooks, the other Stellar adapters,
-- treasury and reconciliation, HTTP controllers, configuration and scripts.
pub mod Base
pub mod Ledger
pub mod Amount
pub mod FeeQuote
pub mod Lifecycle
pub mod Settlement
pub mod Bulk
pub mod Transfers
pub mod Phone
pub mod Otp
pub mod Session
