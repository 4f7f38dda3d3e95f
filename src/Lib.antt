-- ===== src/Lib.antt =====
-- provable-sdk: a Go SDK for the Aleo network. It queries a node over HTTP, signs and authorizes
-- through a Rust library, and submits proving requests to a delegated proving service (DPS).
--
-- The parts, and the files that model them:
--   Network, Network/…: network_client.go. `Network.Get` is the method `get`, a GET with retries;
--     `Network.Queries` the methods that call it and decode; `Network.Submit` the methods that POST,
--     and GetPublicBalance; `Network.Iterator` is BlockIterator, `Network.Wait` WaitForTransaction.
--   Imports, Imports/…: authorization.go and GetProgramImports, the walk over the imports of a program
--     with the cache of sources, and the authorization built from them. Partial is what it needs of
--     Go functions that may run for ever.
--   Provable, Provable/…: provable_client.go. `Provable` is the configuration and the derived URLs,
--     `Provable.Jwt` GetJWT and its cache, `Provable.Jwt.Locked` its calls in several goroutines, `Provable.Reply` the reading of answers, and
--     `Provable.Submit` the submission with its retries.
--   Manager, Manager/…: program_manager.go. `Manager` is NewProgramManager, `Manager.Execute` the way
--     from a call to a transaction ID, `Manager.Credits` the calls of credits.aleo, and `Manager.Batch`
--     ExecuteBatch.
--   Account, Account/…: account.go, with Memory for the byte slices that hold the keys. Crypto: crypto.go.
--     Program: program.go and record.go. Client: aleo.go.
--   Security: security.go, the sealed boxes. Types: types.go. Fault: errors.go and fmt.Errorf.
--   Bridge: internal/ffi/bridge.go, the calls of the Rust library. `Bridge.Heap` is the same calls with
--     their C strings on the heap. `Bridge.Rust` is rust-bridge/src: helpers.rs there and in
--     `Bridge.Rust.Pointer`, account.rs, crypto.rs, and the records and program IDs of program.rs in
--     `Bridge.Rust.Account`, authorize.rs, verify.rs and aleo_execute_program in `Bridge.Rust.Authorize`,
--     hash.rs in `Bridge.Rust.Hash`; `Bridge.Rust.Linked` is the library that these functions make.
--   Http, Exec: what those need of net/http, time and context, and Go's `(value, error)`.
--   Text, Base: strings, strconv and fmt as far as the code calls them, and shared helpers.
--   Tests: runs on concrete data.
--
-- How the code corresponds to the model. A Go function that does I/O is an action on a trace: the list
-- of what was done so far (a request sent, a wait, a turn at the rate limiter), the latest last. The
-- record `Env` is the rest of the world: the server's answer to a request, whether the context ends a
-- wait, the clock and the randomness are functions of the trace, so a theorem over every `Env` speaks
-- of every server, clock and cancellation. A session of ProvableClient has the cached JWT beside the
-- trace, a ProgramManager the cache of program sources beside both, and an account its keys as addresses
-- in a memory of byte arrays. ExecuteBatch is a relation: a step is one action of one goroutine, or the
-- start of the next, and a run is any sequence of steps, so a theorem over every run speaks of every
-- interleaving. What Execute returns for a request while others run is left open there, as a relation
-- that the steps take; Manager/Batch/Executed.antt gives them Execute from any state. The file names and
-- the functions' names are those of the code, in lower case.
--
-- A string is a list of bytes, a uint64 is a native natural number with its wrap-around written out, a
-- time.Duration is the 64-bit pattern of its nanoseconds, and a Go int whose sign matters is a ℤ. What
-- encoding/json, golang.org/x/crypto, encoding/hex and encoding/base64 do is a parameter (`Json`,
-- `Primitives`, `Ciphers`); a theorem that relies on a law of theirs names it. The Go side is stated over any
-- `Library`, and so over the one in rust-bridge/src, which is `linked` over the crates that it calls:
-- snarkVM, serde_json and base64 are the parameter `Crates`. A Rust function is its body, which is done,
-- fails with a message or panics, and what ffi_catch! makes of that; a pointer is `none` where it is NULL.
-- A function that draws randomness takes it as an argument, so one `Library` stands for one choice of it.
--
-- Bounds and fuel. `get` and the loop of SubmitProvingRequestSafe make `maxRetries + 1` rounds, which
-- are counted structurally. WaitForTransaction, the loop of an iterator's caller and the walk over
-- imports have no bound in the code and run on fuel. A unit of fuel is one poll, one call of Next, or
-- one level of imports; so enough is the number of polls until there is a result, one more call than
-- the range has blocks, and one level more than the imports are deep.
--
-- Not modelled: the logger, the time-outs of the HTTP client, more than one value under a header,
-- the random order in which Go walks a map (it matters for two headers whose keys differ in case
-- only), text outside ASCII in TrimSpace and Fields, and how the requests of two goroutines
-- interleave inside Execute: only the calls of GetJWT do, in `Provable.Jwt.Locked`, where no goroutine
-- does anything else meanwhile; the cache of sources is a sync.Map. A panic of a goroutine ends the
-- program and is no outcome of Execute. Buffers of account.go that only one function sees (a derived
-- key, a plaintext) are values, and their erasure is not modelled; neither is the finalizer of an
-- account, nor zeroize_secret.go, which no code calls. KeyCache is stored and never read. What snarkVM
-- computes is a parameter, since it is not in the repository; the process that it loads once is a value,
-- since every function of the library works on a clone, and printing a key, a signature or a field does not fail.
pub mod Base
pub mod Text
pub mod Fault
pub mod Exec
pub mod Http
pub mod Types
pub mod Json
pub mod Network
pub mod Bridge
pub mod Security
pub mod Provable
pub mod Partial
pub mod Imports
pub mod Memory
pub mod Account
pub mod Crypto
pub mod Program
pub mod Client
pub mod Manager
pub mod Tests
