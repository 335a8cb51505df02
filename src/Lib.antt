-- ===== src/Lib.antt =====
-- A model of the Go program of cipher-sign: the TEE extension under tee/go and the tools under
-- tee/go/tools that deploy, register and test it.
--
-- The extension is one HTTP server. POST /action carries an action, whose message is the hex of an
-- inner JSON text; that names an operation, (KEY, UPDATE) or (KEY, SIGN), and the server looks its
-- handler up in a table. KEY UPDATE sends a ciphertext to the TEE node beside it and keeps the
-- decrypted private key; KEY SIGN signs a message with that key and answers with the ABI coding of
-- the message and its signature. The deployment checks read config/extension.env, the environment
-- and the chain, and collect PASS, WARN, FAIL and SKIP results in a report. RegisterNode registers the
-- TEE in the steps of its command, r, R, a and p, and keeps the completed ones in a state file from
-- which a later run goes on. The tools read the addresses of the contracts from a file, send calls
-- through generated bindings, wait until each is mined, and ask a proxy for its results; the end-to-end
-- test sends both instructions and checks the signature that comes back.
--
-- The files:
--   Prelude            numbers, byte lists, results (errors as values) and texts; no program code.
--   Base/Hex           tee/go/internal/base/encoding.go: HexToBytes, BytesToHex, PadLeft.
--   Base/Bytes32       tee/go/internal/base/types.go: stringToBytes32Hex, OpTypeToString.
--   Base/Framework     tee/go/internal/base/types.go: Framework, Handle, Lookup.
--   Base/Server        tee/go/internal/base/server.go and the messages of types.go: New, handleAction,
--                      handleState and the routes.
--   App/Int64          the int64 and big.Int arithmetic that tee/go/internal/app/abi.go uses.
--   App/Abi            tee/go/internal/app/abi.go: abiEncodeTwo, abiDecodeTwo, abiReadBytes.
--   App/Crypto         tee/go/internal/app/crypto.go: parseSecp256k1PrivateKey, signECDSA.
--   App/Handlers       tee/go/internal/app/handlers.go: the key store, handleKeyUpdate, handleKeySign,
--                      decryptViaNode.
--   App/Service        tee/go/main.go: the start of the service, and its requests as steps.
--   App/Container      tee/go/cmd/docker/main.go: the start of the service beside the TEE node.
--   Validate/Report    tee/go/tools/pkg/validate/report.go: the report and its two printers.
--   Validate/EnvFile   tee/go/tools/pkg/validate/checks.go: the two readers of extension.env.
--   Validate/World     tee/go/tools/pkg/validate/validate.go, and what the checks ask of the world.
--   Validate/Deploy, OnChain, Registration, Services, TeeVersion, TeeMachine, TestReady
--                      tee/go/tools/pkg/validate/checks.go: the six groups of checks.
--   Fcc/Register       tee/go/tools/pkg/fccutils/registration.go: RegisterNode and its state file.
--   Fcc/Policy         tee/go/tools/pkg/fccutils/policy_consistency.go: the check before step a.
--   Fcc/Transactions   registration.go: PreRegistration, RequestTeeAttestation,
--                      RequestFTDCAvailabilityCheck, ToProduction, AddTeeVersion.
--   Fcc/Poll           tee/go/tools/pkg/fccutils/tee_calls.go: ActionResult.
--   Fcc/TeeCalls       tee_calls.go and common.go: TeeInfo, GetTeeProxyID, and the requests that configure
--                      a TEE.
--   Fcc/Attestation    tee_calls.go and common.go: CodeHashAndPlatform, GetCodeHashAndPlatform.
--   Fcc/Identity       tee_calls.go: TeeProxyId; registration.go: GetFTDCAvailabilityCheckResult.
--   Fcc/Flow           the record Calls of Fcc/Register, filled by the modules above.
--   Fcc/Governance     tee/go/tools/pkg/fccutils/governance.go and tee/go/tools/cmd/set-governance.
--   Fcc/Extension      tee/go/tools/pkg/fccutils/extension.go: SetupExtension.
--   Fcc/Revert         tee/go/tools/pkg/fccutils/revert.go.
--   Fcc/Diag           tee/go/tools/pkg/fccutils/diag.go: the last line of the log of a refused call.
--   Chain              the chain, a parameter, and the list of the calls that were sent to it.
--   Support            tee/go/tools/pkg/support/support.go, and ReadAddresses of
--                      tee/go/tools/pkg/configs/configs.go.
--   Instructions       tee/go/tools/pkg/utils/instructions.go.
--   Commands/RunTest   tee/go/tools/cmd/run-test/main.go: the check of the signature reply.
--   Commands/EndToEnd  the same file: the six steps of the test.
--   Commands/CheckTeeState
--                      tee/go/tools/cmd/check-tee-state/main.go: the verdict, and the sections that are printed.
--   Commands/AllowVersion, RegisterTee, DeployContract, RegisterExtension, SetGovernance, VerifyDeploy,
--   AuditDeploy, QueryTee, StartTee, StartProxy
--                      the main functions of the commands with these names under tee/go/tools/cmd, each
--                      composed from the functions that it calls.
--   Commands/Tools     what these commands are given.
--   The modules below these hold their theorems; each part has a module Tests, and
--   Fcc/ChainTests, Commands/ToolTests and Chain/Sample test what is sent on a chain that mines every transaction.
--
-- A Go string of the extension is its list of bytes, a nil slice the empty list; a text of the checks
-- is a list of characters. The package variables privateKey and signPort are the record State, which
-- a handler takes and returns. A handler runs under the mutex of the server, so a request is one step
-- and a history of the service is a sequence of requests. An int64 is its 64-bit pattern, with each sum
-- taken modulo 2 ^ 64, and a slice out of range is the value slice_panic. A loop over a map is
-- given the order of its run.
--
-- A tool that sends calls is a function from the chain, with the list of the calls sent so far,
-- to the chain after it and a result, written with do; a call that a binding refuses is not in
-- the list. A pause is not a step, except before a request to a proxy that is polled, where it is
-- so many seconds.
--
-- Bounds: the digits of an int64 take eight rounds, one for each byte; a number below 256 ^ n has no
-- more than n. The decimal print of n is given n + 1 rounds, more than it has digits. A line of 65536
-- bytes ends the scan of extension.env, as bufio.Scanner does. ActionResult makes
-- fifteen requests at most, as its loop does. Every other loop follows a list or a counter.
--
-- Parameters, with what is assumed of them: secp256k1 and Keccak-256 (a parsed key is zero just
-- for a multiple of the group order; a compact signature is 65 bytes and a hash 32),
-- encoding/json, the answers of the TEE node, go-ethereum and the contract bindings (equality of
-- addresses), the environment, files, sockets and HTTP answers of one run of the checks. What
-- RegisterNode sends to the chain and asks of the proxies is the record Calls, and its disk the
-- record Files (what a write without error has written is read back, and so is a state from its
-- JSON text). The record Chain stands for the RPC node, the keys, go-ethereum and the bindings; a
-- new binding keeps its address, and revert data below four bytes does not unpack. The recovery
-- of a public key undoes a signature by a key that is not zero over 32 bytes, and both sides of
-- the test hash alike.
--
-- A command's call of FatalWithCause or Exit ends it with an error; what DefaultSupport gives is an
-- argument of the command, and its flags are its arguments.
--
-- Not modelled: net/http beyond the two routes, log output, the shell scripts, the TypeScript
-- port, the Solidity contracts and the web client; of tee/go/tools, the generated bindings, and
-- what the programs do around the packages (the parsing of flags, signals, the servers of the TEE
-- node and the proxy, which are libraries). The fee of an instruction is a natural number: a
-- negative FEE_WEI, which init reads too, is not followed into the calls.
pub mod Prelude
pub mod Base
pub mod App
pub mod Validate
pub mod Chain
pub mod Support
pub mod Fcc
pub mod Instructions
pub mod Commands
