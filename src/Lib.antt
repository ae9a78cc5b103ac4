-- ===== src/Lib.antt =====
-- tiny-solana: a small validator that orders, executes and records transactions.
--
-- Parts. A batch of transactions is grouped by the scheduler (src/scheduler.rs) into groups that may
-- run in parallel. A group is admitted by the cost tracker (src/cost_model.rs) and takes its accounts
-- from the lock table (src/account_locks.rs). The bank (src/bank.rs) checks each transaction, loads
-- its accounts through an overlay of the account store (src/accounts.rs), and has a program executor
-- run the instructions over the loaded accounts (src/runtime.rs): by the native programs
-- (src/programs: system_program.rs, token_program.rs, bpf_loader_program.rs), or by a virtual machine
-- that finds the accounts in a memory. The overlays are flushed (src/committer.rs), and a hash of
-- the group (src/tx_recorder.rs) goes to the proof of history (src/poh.rs). The banking stage
-- (src/banking_stage.rs) puts these together for a batch, after it has checked the signatures
-- (src/transactions.rs).
--
-- Transactions come from a client (src/bin/client.rs), which builds and signs them, through a server
-- (src/rpc) that simulates them and puts them into the queue of the banking stage. The loop of
-- src/main.rs takes them from the queue in batches; the server also answers for the bank.
--
-- Files.
--   Common           numbers of 64 bits, results, and the collections: a set of keys is an ascending
--                    list (`BTreeSet`, `HashSet`), a map an association list (`DashMap`, `AHashMap`)
--   Types            the byte arrays of src/types.rs, as numbers read big-endian; Text has their
--                    base58 text, Keys the key pairs and src/bin/keygen.rs
--   Accounts         `Account`; Store has the trait `AccountStore` as an interface with its law, and
--                    the in-memory store; Overlay has `OverlayStore`, RocksDb the store over RocksDB,
--                    and Merkle the root hash
--   Transactions     the data of src/transactions.rs; Errors has the errors, Metas what a transaction
--                    reads and writes, Verify the check of the signatures
--   Scheduler        `TransactionScheduler::schedule`; Sets, Groups, Complete and Single have the proofs
--   AccountLocks     `try_lock_accounts_for_group` and the drop of a `LockGuard`; Keys, Release,
--                    Free and Reach have the proofs, the last on sequences of calls
--   CostModel        `calculate_cost`, `would_fit`, `add_cost`, `subtract_cost`, `reset`; Costs,
--                    Ledger and Limits have the proofs
--   Poh              `PohRecorder` and one round of `PohService`; Service has its loop, and Hashing,
--                    Heights, Replay, Paced and Running have the proofs
--   Codec            what the code relies on of a type that bincode writes in a fixed size
--   Runtime          `AccountInfo` over shared cells, the state and errors of a call, `invoke` and the
--                    meter; Memory has `serialize_parameters`, its child Read has
--                    `deserialize_parameters`, and Slices, Find, RoundTrip, Whole and Wrap the
--                    proofs; Syscalls has src/syscalls.rs
--   Programs         Ids has the program ids, System the system program, with Effects on the sum of
--                    lamports, Authority on who may change what, and Contents on whose data are
--                    written; Token has the token program, with
--                    Ledger, Transfers, Conserved and Supply on the sum of tokens; Loader has the
--                    BPF loader, with Pack and Write on the bytes of a buffer, Authority and Close,
--                    and Steps, Data, Written and Deploy on a deployment
--   Executors        `NativeProgramExecutor`, `RbpfProgramExecutor` and `ChainedProgramExecutor`;
--                    Depth has the proof on nested calls, Calls those on what is run
--   Bank             Lifecycle has creation and freezing, Processing the preflight rules and the
--                    execution; Blockhashes, Infos, Conserved and Final have the proofs
--   Banking          Recorder and Committer have src/tx_recorder.rs and src/committer.rs, Stage has
--                    src/banking_stage.rs: its loops, Batch the whole of `process_batch`, Loops and
--                    Released the proofs about the guards; Results,
--                    Groups and Invalid those about the results of a transaction that no
--                    group holds, Single and Outcome those about a batch
--                    of one transaction
--   Rpc              src/rpc: Handlers has what the methods read, Server `sendTransaction` and the
--                    dispatch, Wire the bodies of requests and responses, Json what is used of JSON,
--                    and Sent the proof on what a request changes
--   Client           src/bin/client.rs: the transaction; Requests has the requests, and Signed,
--                    Executed, Paid, Delivered and Answered the proofs
--   Validator        src/main.rs: the start and one turn of the loop; Batches and Loop have proofs on
--                    batches and on sequences of turns, Journey one from the client to the client
--   Samples, Tests   small inputs, and runs at them
--
-- State. A call on a shared object is a function from its state to its state; where the code holds a
-- lock or is the only writer this is one step, and the interleavings of calls are the sequences of
-- steps (`Reach` in AccountLocks.Reach, CostModel.Limits, Poh.Heights, Bank.Blockhashes). A guard is
-- a value that the owner gives back. An account behind `Rc<RefCell<_>>` is a cell of a list and an
-- info holds its index, so aliasing is kept. A panic is a result of its own. Integers wrap as in a
-- release build: `u64` and `usize` have 64 bits.
--
-- Fuel. The loop of `schedule` has as many rounds as there are transactions, which is enough: each
-- round takes the first of those that remain. The loop of `hash_accounts` has as many rounds as there
-- are hashes, and each round leaves fewer. The executor calls itself through `invoke`; its depth is
-- bounded, and two levels are enough, since programs call only the system program.
--
-- Parameters. SHA-256 is a function of bytes; the decoding and encoding by bincode are functions that
-- may fail; the keys and signatures of ed25519_dalek are a type and two functions; the
-- program executor of the bank is a function of the instruction, its context and its infos. The rent
-- and clock sysvars of solana_program, and loading, verifying and running a VM program, which
-- solana_rbpf does, are functions too, and so are base58, base64, JSON, RocksDB, UTF-8, the files, and
-- the clock and channels as a loop finds them. Hypotheses on JSON, base58, base64, RocksDB and ed25519
-- (`IsJson`, `IsInverse`, `IsDb`, `IsSound`, `HasSeeds`) say that what was written is read back and
-- that what was signed is accepted. Hypotheses on bincode (`IsExact`, `IsCanonical`) say that what
-- was written is read back, in a size that is fixed.
--
-- Not modelled: the start of threads and of the web server, signal handling and printing; the wrappers
-- of locks that measure waiting time (src/sync.rs) and metrics, which have no effect on the state; the
-- debug texts; running out of memory; and the virtual machine itself with the registration of its calls.
pub mod Common
pub mod Types
pub mod Accounts
pub mod Transactions
pub mod Scheduler
pub mod AccountLocks
pub mod Runtime
mod Samples
pub mod Programs
pub mod Executors
pub mod Rpc
pub mod Client
pub mod CostModel
pub mod Poh
pub mod Codec
pub mod Bank
pub mod Banking
pub mod Validator
