-- ===== src/Lib.antt =====
-- RED_MPUDP, a latency-first multipath UDP VPN in Go. The daemon reads and checks a configuration, opens a
-- TUN interface, and records every change to the network of the host in a journal before it makes it, so
-- that a later process can undo just these changes. Bounded queues and buffers carry its packets.
--
-- Files, and the code that they model (paths from the root of the repository):
--   Prelude           names of the library, lists over native numbers, signed integers, texts as bytes.
--   Bounded/Ring      internal/bounded/ring.go: `Ring`, with `NewRing`, `Push`, `PushEvict`, `Pop`, `Peek`,
--                     `Reset`. Inv and Refine compare it with the FIFO of Bounded/Fifo, Run and Released
--                     are about sequences of calls.
--   Bounded/Queue     internal/bounded/queue.go: `ByteQueue`; Inv has each operation, Expiry `DropExpired`.
--   Journal/Schema    internal/journal/schema.go: the records, `Validate` and `checkOwner`.
--   Journal/Recover   internal/journal/recover.go: `Recover`, step by step, over any `Host`. Every call of
--                     the host is written to a trace: Trace has its lemmas, Gate is about the kill switch,
--                     Order about the order of the calls.
--   Journal/Store     internal/journal/store.go: `Load` (Loading), `WriteTo` (Writing, Writing/Atomic)
--                     and `EnsureDir` (Directory).
--   Config/Netip      the addresses of net/netip, as the documentation of that package describes them.
--   Config/Types      internal/config/types.go, and the records of client.go and server.go.
--   Config/Checks     internal/config/validate.go: one function for each check, which gives the problems it
--                     adds to the `errList`; a problem is a constructor with the fields that vary.
--   Config/Client     internal/config/client.go: `applyDefaults`, `Validate`, `validateInterfaces`.
--   Config/Server     internal/config/server.go: `applyDefaults`, `Validate`, `validatePeers`.
--   Config/Load       internal/config/load.go: `decodeStrict`, `LoadClient`, `LoadServer`.
--   Tun               internal/tun/tun.go: `Config.validate`, `validateName`, `guardMTU`.
--   Tun/Device        internal/tun/tun_linux.go: `ReadPacket`, `WritePacket`, `SetMTU`, `Close` of the open
--                     device, over any system; Run and Writes are about sequences of calls.
--   Tun/Open          internal/tun/tun_linux.go: `Open` with `verifyLink` and `verifyAddress`, one function
--                     for the code after each call. Resources is about what stays open, Verified about what
--                     was read back.
--   Tun/Pooled        internal/tun/pooled.go: `ReadInto` and `WriteFrom`, on Tun/Device and Packetbuf.
--   Packetbuf         internal/packetbuf: `Pool` and `Buffer` as a heap with pointers, for both settings of
--                     the build tag debug; Sizes has the size classes, Owned and Uses the holders.
--   Journal/Linux     internal/journal/host_linux.go: `LinuxHost` as a `Host` of Journal/Recover; Argv is
--                     about the words of its commands, Resolver about a recovery with it.
--   Identity          internal/identity/keyfile.go and keygen.go: `ParseKey` and `Encode`; Base64 has the
--                     encoding of encoding/base64, Files the key files, Derive derive.go.
--   Testclock         internal/testclock/clock.go: the clock; Loop has `Set` and `Advance`, Handles the
--                     timers and tickers. Due and Rounds are about the loop of `Set` and its end, Settled
--                     about what each round does, Order about the order of the firings, Ticks about
--                     tickers, Table about the table of entries.
--   Cli               cmd/red-mpudp/cleanup.go: `cmdCleanup`. Main has `run` of main.go and the commands of
--                     keys.go and config.go; Keys is about keygen and public-key, Dispatch about the flags
--                     that are refused.
--   Reason            internal/reason/reason.go: the four sets of codes.
--   Phase0            internal/congestion/phase0sim/sim.go: the integer `Controller`.
-- Each part has a module Tests with concrete inputs.
--
-- State is passed explicitly. What is not code of the repository is a parameter: the host of `Recover`, the
-- calls on files and the JSON package of the journal's store, the parser of the flags, the YAML decoder,
-- `netip.ParseAddr` and a floating-point comparison in the checks, the system calls and the netlink
-- connection of the device, the commands and files of the Linux host, the calls on key files, SHA-256 and
-- HKDF, what a callback does to the test clock, which buffer a `sync.Pool` gives, and the texts that
-- `strconv` prints. Goroutines and locks are not modelled: each operation runs to its end.
--
-- Bounds: an `int` of the configuration is a signed integer; the `uint32` sum of the rule priority and the
-- 64-bit counters of the device wrap as in the source. The ring is taken up to a capacity of 2^62 and the
-- queue up to a budget below 2^62, so that their sums fit an `int`; the rates and times of the controller
-- are taken as natural numbers, so it is modelled where its `int64` sums and products do not overflow and
-- time does not run backwards past the last report. Loops are structural recursion, except `DropExpired`,
-- which runs on fuel: the number of items held and one more is enough, since each turn takes an item; and
-- `Set` of the test clock: the sum over the active entries of the nanoseconds from the deadline to the
-- target, and one for each, is passed by enough fuel, since each turn takes from it. Its instants are
-- natural numbers, from an origin that no deadline precedes.
--
-- Not modelled: the generation of keys, the texts that the commands print, the build information, the
-- interface internal/clock and its forwarding to the package time, the floating-point simulation around the
-- controller, the experiments and the test harness.
pub mod Prelude
pub mod Bounded
pub mod Journal
pub mod Config
pub mod Tun
pub mod Phase0
pub mod Reason
pub mod Cli
pub mod Identity
pub mod Testclock
pub mod Packetbuf
