-- ===== src/Lib.antt =====
-- Drawbridge keeps a Linux guest's loopback ports in step with the Mac that hosts it. The daemon on
-- the Mac mirrors the guest's listeners on the Mac's loopback (internal/mirror), tells the guest
-- which Mac listeners it may reach and answers the reverse streams that reach them
-- (internal/macsync); the agent in the guest parks the Mac's reverse streams and hands them to its
-- gateway proxies (internal/agent). Every connection between the two begins with the handshake of
-- internal/transportauth. UDP rides on streams as the frames of internal/udpframe, the accept loops
-- are internal/acceptloop's, and refusals are kept for the doctor in internal/introspect's ring.
--
-- The files, and the code they model:
--   Base          shared notation: tests, lists, Go maps as association lists, == on keys, sets, texts;
--                 Bytes and Numerals are what the code uses of the packages strings and strconv.
--   Ring          internal/introspect/ring.go: Record and Snapshot of the bounded ring.
--   Mirror        internal/mirror/mirror.go. Types is the state (Client with its table, its
--                 observations, its timers and its sockets); Policy is mirrorable, observe, declined
--                 and macHeld; Sockets is openLocked and the closing of a mirror; Session is
--                 reconcile, add, del and closeAll; Reserve is handleReserve, releaseIfPending and
--                 the readers of the table; Steps puts them in any order, with the clock and with
--                 what the Mac answers (a bind's result, the holder of a port) as part of each step.
--                 The other files of the directory are proofs, named for what they prove.
--   TransportAuth internal/transportauth: Secret is the file format and Load, Frame the type frame and
--                 the proofs, Handshake both halves over a connection, Latch the process's record of
--                 configured paths, Diagnose mac.go's lines about refused handshakes, which go to Ring.
--   Limiter       the log limiters of internal/transportauth/mac.go, internal/agent/listen.go and
--                 internal/agent/notifycap.go, which are one algorithm.
--   AcceptLoop    internal/acceptloop/acceptloop.go.
--   MacSync       internal/macsync: Listeners is macsync.go's Listener with the part of net/netip that
--                 is tested, Holder is holder.go, Syncer the offered set, Session an event session tick
--                 by tick, Streams handleStream and parkOne from the activation header on,
--                 Settings the endpoint and the defaults.
--   UdpFrame      internal/udpframe/frame.go.
--   Relay         internal/udpframe/relay.go: the flow table.
--   DialPool      internal/agent/dialpool.go.
--   AgentReserve  internal/agent/reserve.go, which asks Mirror's handle_reserve over a connection.
--   FdStore       internal/fdstore/fdstore.go: the names and messages of systemd's descriptor store, and
--                 what is read back from the environment.
--   Supervise     internal/agent/notifycap.go, notify.go, fdstore.go and ociseccomp.go: Cap is the cap on
--                 supervisors, Agent the life of a notify descriptor from its handoff to its close, Steps
--                 any order of these, Answer the answer to each bind, which asks AgentReserve.
--   SyncPorts     internal/agent/agent.go's AddMacPort and RemoveMacPort, and the session of
--                 internal/agent/macsync.go, which applies the events of MacSync's Syncer.
--   Dispatch      internal/agent/transport.go: a connection from its first byte to the handler of its
--                 type. It joins TransportAuth, Limiter, DialPool and AgentReserve.
--   Endpoint      internal/transport/transport.go: the grammar of endpoints, with what it uses of the
--                 package net.
--   Leases        internal/limaaddr: Records is the text of the Mac's lease file (leases.go), the parent which
--                 of its addresses are candidates for a virtual machine, and Resolve limaaddr.go's choice
--                 of the endpoint.
--   Listen        internal/agent/listen.go: Prefix is the part of net/netip that it uses, Vznat the choice
--                 of the guest's address, Guard the sources, the guarded listener and the bind.
--   Hub           internal/agent/tracker.go: the guest's listener set and its subscribers. Steps is who
--                 changes them, Mirrored is a session of Mirror's client that gets its events, EndToEnd joins
--                 the two over the event stream.
--   ProcNet       internal/agent/proc.go: the tables of /proc/net, whose listeners seed the hub.
--   Scroll        internal/tui/scroll.go, and the keys of model.go that scroll.
--   RefusalLog    internal/tui/refusals.go: the log of a daemon's refusals, which is fetched out of Ring.
--   Snapshots     internal/tui/model.go's applySnapshots, with mergeRefusals and resolveSelection: what a
--                 fetch of the daemons' sockets changes. It keeps RefusalLog's logs.
--   OciRuntime    internal/ociruntime and cmd/drawbridge-runc/main_linux.go. Json is encoding/json's values,
--                 Stance and Mutate are mutate.go, CommandLine is dispatch.go with createBundle, Wrapper
--                 the rest of main_linux.go. Its other files are proofs.
--
-- How it is modelled. A method is a function from the state before to the state after and the result;
-- a mutex is left out, since each step is one critical section, and histories are lists of steps in any
-- order. What the environment decides (the clock, a bind's result, a poll's answer, what the peer
-- sends, whether a dial succeeds) is an argument of the step. Numbers are natural numbers; times are
-- nanoseconds. A Go map is an association list with one entry for a key, or a list of keys, and no
-- theorem depends on its order. Sockets, connections and timers are numbers.
--
-- Parameters, for code that is not here: crypto/hmac with SHA-256 is any function from a key and a
-- message to bytes (that a tag has 32 bytes, or that a secret's tags tell messages apart, is a
-- hypothesis where a theorem needs it); filepath.Clean is any function on texts, and
-- netip.ParseAddr any function from a text to an address or none. So are encoding/json's decoding and
-- encoding of a whole text (OciRuntime), the decoding of a ring buffer's sample and an address's text
-- (Hub), and the canonical form of a path.
--
-- Fuel. The trimming of white space takes as many rounds as there are bytes; each round drops one at
-- least, so they are enough. A number in a log line is printed with at most 20 digits, enough for 64
-- bits. Base.Numerals prints a number n in n + 1 rounds, each of which divides it by ten; that they are
-- enough is proved there. The loop of dialPool.pop runs over a list of rounds: each that goes on takes
-- a connection off the pool, so one round more than those parked and those to come is enough. All else
-- is structural recursion, or one step at a time.
--
-- What is not modelled: goroutines and the sockets' own bytes (splices, the UDP pumps), the text of
-- JSON and the encoding of log lines' times, the installers, the rendering of the terminal interface,
-- the command line tools, the eBPF and seccomp programs, the doctor, and the commands and records of
-- the providers of virtual machines.
pub mod Base
pub mod Ring
pub mod Limiter
pub mod AcceptLoop
pub mod TransportAuth
pub mod Mirror
pub mod MacSync
pub mod UdpFrame
pub mod DialPool
pub mod Relay
pub mod AgentReserve
pub mod FdStore
pub mod Supervise
pub mod SyncPorts
pub mod Dispatch
pub mod Listen
pub mod Endpoint
pub mod Leases
pub mod Hub
pub mod Scroll
pub mod RefusalLog
pub mod OciRuntime
pub mod Snapshots
pub mod ProcNet
