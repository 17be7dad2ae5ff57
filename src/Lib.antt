-- ===== src/Lib.antt =====
-- MinerTim, a Monero miner: a session with a mining pool (src/pool_connection.rs), which worker
-- threads submit shares to (src/miner.rs) and a receiver thread keeps alive, the donation schedule
-- that decides whose wallet is mined for (src/donate.rs), and RandomX with a JIT compiler for ARM64
-- (src/randomx).
--
-- Which file models what:
--   Donate, Donate/Schedule  src/donate.rs: `clamp_level`, `DonationSchedule::new`, `beneficiary_at`.
--   Hex, Hex/RoundTrip       src/hex.rs: `hex_encode`, `hex_decode`.
--   Pool/State               the struct `PoolConnection`, its counters and outstanding submissions.
--   Pool/Framing             `read_line` and `take_complete_lines`, with `Lines` and `Limit`.
--   Pool/Json                what is used of `serde_json`, an interface.
--   Pool/Jobs                `parse_job`, `target_to_difficulty`, `is_tls_port`,
--                            `parse_cert_fingerprint`.
--   Pool/Submit              `submit_share` and `write_and_register`, in atomic steps.
--   Pool/Messages            `handle_pool_message`; what a message says by its members (Members).
--   Pool/Session             `connect`, `login`, `relogin_as`, `reconnect`.
--   Pool/Rotation            `note_donation_target`, `rotation_settled`, `rotation_may_proceed`.
--   Pool/Receiver            one iteration of `receiver_loop`, and `send_message`.
--   Pool/System, Pool/Ledger the threads around one connection as a step relation, and the share
--                            counters in every state that is reached.
--   Miner/Shares, Miner/Worker
--                            src/miner.rs: `meets_target`, `write_nonce_le`, `classify_share`, and
--                            the rounds of `worker_loop`; the virtual machine is an interface.
--   Miner/Verifier           `ShareVerifier` and the history of its calls; what it uses of the
--                            virtual machine in full mode is an interface, which says nothing of the
--                            hashes that the native loop gives.
--   Miner/Target, Miner/Pipeline
--                            what they guarantee of a submitted share.
--   Miner/Reference          `RandomXVm` as the virtual machine that the verifier asks.
--   Jit                      src/randomx/jit/aarch64.rs: the instruction encoder, and `mov_imm64`.
--   RandomX                  src/randomx/vm.rs: `compile_program` (Instruction, Compile),
--                            `execute_bytecode` (Machine, Execute), `derive_program_params`
--                            (Params) and the loop of `execute_vm_inner` (Vm), with the lemmas on
--                            operands, register usage, branches and runs in the other modules;
--                            `randomx_reciprocal` of src/randomx/superscalar.rs (Reciprocal).
--   RandomX/Hasher           `RandomXVm`: `calculate_hash`, `prepare_scratchpad` and
--                            `calculate_hash_pipelined`; Runs, Through, Pipelined and Reference
--                            compare them.
--   RandomX/Blake2b          src/randomx/blake2b.rs, with the blocks of RFC 7693 (Blocks, Digest).
--   RandomX/Aes              src/randomx/aes_hash.rs: the generators, the hash, and the pass that
--                            does both (Fused); what a generator writes (Streams).
--   RandomX/Generator        src/randomx/blake2gen.rs, over any hash of 64 bytes.
--   RandomX/Superscalar      src/randomx/superscalar.rs: `generate_superscalar`, with the choice of
--                            instructions and operands (Select) and of ports (Schedule), and
--                            `execute_superscalar` (Execute, Safety); the lemmas on both are in the other
--                            modules.
--   RandomX/Dataset          src/randomx/dataset.rs: `init_dataset_item`, `generate`, and the
--                            programs that `RandomXVm::new_versioned` makes for them.
--   Miner/Hashing            `RandomXVm` as the virtual machine that the rounds of a worker use.
--   Common                   Boolean tests, lists over native numbers, machine words and their bits.
--
-- How the code is read: a field behind a mutex or an atomic is a field of a record, and a method is
-- a function from record to record. No thread panics while it holds a lock, so that no lock is
-- poisoned. Counters of 32 and 64 bits wrap, as the atomic operations do. Times are milliseconds,
-- and are handed in. What the operating system, TLS and the pool answer is handed in as data
-- (`Attempt`, the lists of reads, the results of writes), so that a theorem holds for all answers. Of
-- what is written to a socket, the login requests are kept in the state (`sent`).
-- `serde_json`, UTF-8 decoding and trimming are parameters. Logging is left out. A `debug_assert!`
-- is left out, as in a release build.
--
-- Interleavings: the step relation of Pool/System lets the receiver's operations happen in any order,
-- which is more than `receiver_loop` does, and cuts `submit_share` where another thread can run. An
-- answered submission is removed and counted in one step. Request ids are 64 bits wide: the theorems
-- on them are for fewer than 2 ^ 64 - 1 ids.
--
-- RandomX: the unchecked accesses of the virtual machine are options, none out of bounds, so that a
-- theorem that a result exists is one of memory safety. The floating-point unit is a record of
-- functions that take the rounding mode; the words of the dataset are a function, and so is a single
-- AES round, of which only its length and its bytes are known. A slice is a list of bytes in the AES
-- passes, and the machine's scratchpad a function from places to bytes. The interpreter runs in full
-- mode; the JIT and the computation of single dataset items, which replace it or the dataset, are
-- left out, and so are prefetches.
--
-- Fuel: `drain_lines` takes the length of its buffer, of which each round uses a byte at least. The
-- interpreter takes `n * (3 * n + 3) + 1` turns for `n` instructions, which is enough since a branch
-- is visited three times at most before the loop passes it. The generator of superscalar programs
-- takes `draws` numbers at most for a rotation count or a divisor, a parameter, since the loops of the
-- source end with probability one only, and 257 turns for each slot of a decode buffer, of which
-- 256 may throw an instruction away.
--
-- Not modelled: the certificate verifier, the statistics
-- of the miner, the encoder's bitmask immediates, the rest of RandomX (the AES round itself, Argon2d,
-- light mode), the JIT compiler and its executable memory, and the
-- command line.
pub mod Common
pub mod Donate
pub mod Hex
pub mod Jit
pub mod Miner
pub mod Pool
pub mod RandomX
