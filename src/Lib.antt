-- ===== src/Lib.antt =====
-- A model of gowebfilter, the web filter, in the parts that decide what a client may reach.
--
-- A client connects to a listener (internal/models/proxylisten.go says which). The handshake of SOCKS5
-- or a CONNECT request names a host; the tunnel is refused, spliced unseen, or intercepted. An
-- intercepted request becomes a flow that a chain of addons passes along: access to the management
-- server, proxy authentication, the choice of a policy, interception control, the URL filter, and
-- the log. The policy is chosen by the client's address and the time. The host gate applies to a
-- spliced connection what of the URL rules a host name can decide.
--
-- Files, and the code that each models:
--   Base            texts as lists of bytes, Boolean tests, decimal and hexadecimal numbers: what the
--                   code uses of strings, strconv and the language
--   Net             the interface to the net package; Net.Ip4 is an instance for IPv4 in dotted form
--   Models          internal/models: Schedule (schedule.go), Policy and UrlFilter (policy.go), Settings
--                   (settings.go), Listen (proxylisten.go)
--   State           internal/proxy/state: Match (policy_match.go), Runtime (state.go)
--   Categories      internal/categories/store.go: Hash (the sets), Store (loading and lookup)
--   Proxy           internal/proxy: Matching (matching.go), Flow (flow.go, block.go), HostGate
--                   (hostgate.go), Pipeline (pipeline.go), Socks (socks5.go), Socks4 (socks4.go), Udp (socks5_udp.go),
--                   Tunnel (handleTunnel of handler.go and udpVerdictFor of socks5_udp.go), Addons (addons/*.go)
--   Icap            internal/icap/chunked.go
--   Adblock         internal/adblock: Rules, Options, Parse, Lines (parse.go); Glob, Context, Matching,
--                   Index, Engine, Cosmetic (engine.go); the files below Index and Engine prove that the
--                   indexes miss no rule
--   Settingsvc      internal/settingsvc/policymerge.go
--   Pwhash, Mac     internal/pwhash/pbkdf2.go, internal/macutil/mac.go
--   Tests           the properties at concrete inputs
--
-- Numbers are natural numbers; a 64-bit word keeps its wrap-around. A map is a list of pairs or of
-- fields, a set a list; an index of -1 is none. A regular expression that does not compile panics, and
-- a panic is none (or the outcome `panicked`). A loop is recursion on its list. The binary search of a
-- set, the chunks of a body and the hexadecimal printer take the length of their input, or the number,
-- as fuel; each round shortens the interval, takes a byte or divides by 16. The pattern matcher takes the
-- length of the pattern for the stars to come, the loop over the parents of a host its length.
--
-- Parameters of the model, for code that is not in the repository: the net package (Net) with the
-- spelling of an IP address, the regexp engine, the public suffix list, the execution of the HTML
-- template, base64 and the key derivation; and the neighbour table, which internal/neighbors reads from
-- the operating system.
--
-- Letters are lowered in ASCII only, where strings.ToLower also lowers other letters of Unicode; so
-- the theorems on names, patterns and selectors are about texts that it lowers in the same way. A gate
-- without a runtime, which marks the connection and lets it pass, is one whose settings have
-- authentication switched off. A socket of the UDP relay is a number; its dial, its registration, its
-- close and the end of its reader are steps that interleave in any order, since the code dials and
-- closes outside its lock.
--
-- Not modelled: the bytes on sockets and their deadlines, TLS, HTTP parsing, files, SQL, locks and
-- goroutines; the content addons (classifiers, safe search, YouTube, DNS over HTTPS, the hook of the
-- adblock engine), the download of filter lists, the gateway and TUN capture, the management API,
-- metrics and certificates.
mod Base
pub mod Net
pub mod Mac
pub mod Pwhash
pub mod Models
pub mod State
pub mod Categories
pub mod Proxy
pub mod Icap
pub mod Settingsvc
pub mod Adblock
mod Tests
