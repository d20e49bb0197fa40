-- ===== src/Lib.antt =====
-- The wallet's core: what its operations do to the stored addresses, to the amounts and to the bytes
-- of a transaction, as definitions that follow the Go code, and theorems about them.
--
-- The parts and how they interact:
-- * keystore/ keeps one record for each single-use address in a bbolt database, with its state
--   (FRESH, FUNDED, SPEND_PENDING, SPENT, RETIRED), the history, and the signed transactions that wait
--   for broadcast. Every operation is one database transaction.
-- * internal/txbuilder/ plans fees, selects coins, parses amounts, and writes and checks transactions.
-- * address/ encodes and decodes addresses (Bech32m), the wallet's own and those of destinations.
-- * internal/rpcclient/ calls the node and turns its answers into amounts, depths and deposits.
-- * signer/ makes keys from a seed and signatures, over liboqs.
-- * wallet/ joins them: it derives addresses, moves them on when the node reports funds or
--   confirmations, checks, signs, serializes and stores a spend, and signs messages.
-- * cmd/gui/ chooses the inputs of a send from a scan, has the signed transaction tested and
--   broadcast, and settles what waits for broadcast.
--
-- The files:
-- - Base has the shared names; lists, results, byte strings, int64 with its wrap-around (Base.Int64),
--   encoding/binary (Base.Words), encoding/hex (Base.Hex), decimal text (Base.Decimal and
--   Base.ParseInt for %d, %08d and strconv.ParseInt).
-- - Keystore (keystore/keystore.go, history.go, pending.go): Types are the records; Opening is Open and
--   ValidateExisting on the buckets of a file, with Schema on what a new file has; Bolt is the
--   database as an interface with laws, met by the sorted lists of SortedList; Transaction is
--   db.Update; Store is findRecord and putRecord; Lifecycle is MarkFunded,
--   MarkSpendPendingAndReserveChange, MarkSpent and Retire; Outpoints and Recovery are
--   ObserveRecoverableOutpoints and MarkRecoveryPendingAndReserveChange; History is PutTransaction and
--   MarkFundedAndRecordIncoming; Pending is pending.go; Generate is GenerateAddress and PreGenerate;
--   Queries are the reads. Writes and its children say what an operation wrote when it succeeded,
--   Steps, Life, Evolution, Indexed and Run what any sequence of operations does; Kept and
--   Pool are about PreGenerate.
-- - TxBuilder (internal/txbuilder/txbuilder.go): Compact, Serialize and TxId are the bytes, with Reading,
--   RoundTrip and Weight on them; Size, Fees, Rate, Plan and Withdraw are sizes, fees and plans; Coins,
--   Ordering, Selection, Choice and Chosen are the selection of coins.
-- - Amounts models QOGEToSatoshis and ParseFeeRate of txbuilder.go, parseQOGEDecimal and FormatQOGE of
--   internal/rpcclient/balance.go.
-- - Address (address/bech32m.go, address/address.go): Checksum and Codec are the encoding, Format and
--   Destination the two decoders, Agreement what they have in common.
-- - Wallet (wallet/wallet.go, wallet/history.go): Observe and Listing; Sighash, Validate and Signing are
--   signP2QPKInputs from the checks to the write; Validated, Prepared, Outcome, Failure and Money are
--   what follows from its result. Confirming is what ObserveSpendConfirmation has done, Listed what
--   ListAddresses lists; Messages is deriveAddress, SignMessage, SignTransaction and VerifySignature,
--   Verified joins them; History is wallet/history.go. Files is CreateNew, OpenExisting
--   and openWallet on what stands at a path, Created what follows.
-- - Signer (signer/slhdsa.go): Keys, and Seeded on NewSignerFromSeed.
-- - Scan (internal/rpcclient/balance.go and deposits.go, ScanResult of client.go): Types, Index and
--   Balances are the three analyses of a scan; Owners, Totals, Depths, Groups, Grouped and Deposited
--   say what they compute.
-- - Node (internal/rpcclient/client.go): Call is the transport, Methods the methods, Replies what an
--   answer means.
-- - Gui (cmd/gui/main.go): Inputs, Prepared and Selected are the inputs of a spend; Sending and Amounts
--   the destination, the amounts and the amount field; Gate, Tracked and Broadcasts the buttons that
--   test and broadcast a signed transaction; Pending, Settling and Reconciled the list of
--   pending broadcasts; Refresh the refresh of balances and states, with Observing and Refreshed on
--   what it may write.
--
-- How the code is read: a (value, error) pair is a Result, with one constructor for each error; a
-- byte string is the list of its bytes, a string is ASCII text; int64 and int are the integers between
-- -2 ^ 63 and 2 ^ 63 - 1 with the wrap-around written out; uint32 and uint64 fields are numbers. The
-- mutexes of KeyIndex and Wallet make the operations a sequence, which is what is modelled. A stored
-- record stands for its JSON text. Where sort.Slice leaves the order of equal elements open, they keep
-- their order. A time is a number of nanoseconds, 0 for the zero time.
--
-- Parameters: bbolt (the interface Bolt), SHA-256, HKDF, gcm.Open and gcm.Seal of AES-GCM,
-- ConvertBits and CheckDecode of btcutil, the key generation (a program that draws from the random
-- source), signature and verification of liboqs, the derivation that GenerateAddress is given, the
-- HTTP exchange with the node and the JSON decoders of its answers, whether a directory can be
-- made, a file claimed and a database opened, the float64 of an amount with its text of eight
-- decimals, and the order in which a Go map is walked.
--
-- Fuel: decimal digits are written with fuel n + 1 for n, which is enough (Base.Digits); all other
-- loops recurse on a list or on the count that the code has.
--
-- Not modelled: the erasing of memory, the closing of files, the command line, and of the graphical
-- interface the preview of a send, the recovery window, the filters and all layout; the fee that a
-- mempool test reports, which is only shown.
pub mod Base
pub mod Keystore
pub mod TxBuilder
pub mod Amounts
pub mod Address
pub mod Signer
pub mod Wallet
pub mod Scan
pub mod Node
pub mod Gui
