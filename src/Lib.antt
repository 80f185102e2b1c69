-- ===== src/Lib.antt =====
-- lrmdns, an authoritative DNS server: its zones, its answers, its limits and its counters.
--
-- A datagram or a TCP frame reaches a handler of src/server.rs, which asks the rate limiter
-- (src/ratelimit.rs), parses the message, lets the query processor (src/protocol.rs) answer it from
-- the zone store (src/zone.rs), fits the response to the transport, sends it, and counts what it
-- did (src/metrics.rs). The handlers are tasks that the two loops of src/server.rs spawn;
-- src/main.rs sets the server up from the configuration (src/config.rs), reloads the zones and
-- stops the loops, and src/api.rs shows the counters.
--
-- Prelude has the shared helpers: native numbers with their Boolean tests, lists, results, and
-- membership in sorted and nested lists, and sorting. HashMap is an association list for the maps
-- of the program, with the laws of lookup after each write; `HashMap.Distinct` says that no key
-- occurs twice and carries predicates of every entry through the writes. Dns has the messages,
-- records and names of the crate hickory_proto as far as the program uses them. Names are a
-- parameter, the record `DnsApi` of Dns/Name.antt, whose fields are the operations that the program
-- calls; of them it is assumed that `==` is an equivalence. The results on the order of the zones
-- assume of the origins in the store that no two of them lie above one name with as many labels.
--
-- Zone is `Zone` of src/zone.rs, one function for each method: `new`, `add_record`, `lookup`,
-- `contains_name`, `lookup_wildcard` (with `wildcard_loop` for its loop), `get_soa_record` and
-- `get_all_records` (with `inner_records` for what stands between the two SOA records). Its child
-- Zone.Store is `ZoneStore`: `add_zone`, and `find_zone` with `best_loop` for the choice of the
-- longest origin. Zone.Valid is the well-formedness that `new` and `add_record` establish, and
-- Zone.Store.Valid that of a store. The maps have an order here, which in the program is arbitrary:
-- Zone.Same says when zones and Zone.Store.Order when stores differ in it alone, and
-- Zone.Store.Publish what zones added one after the other publish.
--
-- Zone.File is the parser of zone files in src/zone.rs: `preprocess_zone_content` here,
-- `parse_domain_name` and an RDATA parser for each record type in Rdata.antt and Secure.antt, and
-- `parse_resource_record` in Parse.antt, and `parse_zone_file` in Load.antt. Text is a list of code
-- points, and Zone/Text.antt has the functions of `str` on it, and Zone/Address.antt the standard
-- library's readers of IPv4 and IPv6 addresses. The readers of the names of record types, of digest
-- types, of base64 and of hexadecimal digits are a parameter, `Readers`; an index beyond the words
-- of a line, which would panic, is an error of its own. Zone.File.Print is not in the program: it
-- prints records as such a file, for the round trip.
--
-- Protocol is `process_query` of src/protocol.rs, cut at its branches: `dispatch` for the checks
-- before a zone is looked for, `answer_in_zone` for the rest, with `answer_found`, `chase_all` and
-- `answer_negative` for the three kinds of answers, then `add_authority` and `add_edns`.
--
-- RateLimit is src/ratelimit.rs. The mutex makes a call of `check_rate_limit` one step, and the
-- four readings of the clock in it are an argument, in nanoseconds. RateLimit.Spec is its contract:
-- a log of the admitted queries and a sliding window over it.
--
-- Dnssec is src/dnssec.rs. The hash functions and the flags of a key are a parameter, `Crypto`.
--
-- Metrics is src/metrics.rs. An addition wraps at 2^64. The updates of Metrics.Counts are the calls
-- that the tasks make, in any order. Metrics.Log has the lines of `log` as data; a quotient of two
-- `f64` is kept as its two numbers. Api is src/api.rs: the routes, and the documents as values.
--
-- Config is src/config.rs: the defaults, `from_file` and `validate`, where the file system's
-- answers and the YAML reader are parameters.
--
-- Server is src/server.rs. Server.Udp is `handle_udp_query`: it takes the shared limiter and
-- counters to new ones and the datagram that is sent, or an error. Server.Tcp is
-- `handle_tcp_connection`: the state is the connection with the frames it has written, a round
-- handles one frame, and `tcp_loop` goes through the rounds that come. What the network yields (a
-- frame, a timeout, whether a write succeeds) is an argument of the round. A frame stands for the
-- writes of its prefix and of its message; one that fails in between ends the connection. Encoding
-- and parsing of messages are the crate's, a parameter `Codec`, of which nothing is assumed.
--
-- Server.State has `DnsServer` and the state of its loops and tasks, a `World`, and Server.Run has
-- `run`, `run_udp` and `run_tcp`, as events that change it: a `select!` that takes a branch, a UDP
-- task that handles its datagram, a TCP task that starts or does one round of its loop, a reload,
-- and the cancellation of the token. `IsEnabled` says when an event can come, and `Run` has the
-- worlds that events lead to; the order is free, so a property of every `Run` holds of every
-- schedule. A UDP task is one event: the updates of the counters commute, and the limiter is behind
-- its lock. The loops and the tasks of a world can go on after `run` has returned, when the program
-- ends and drops them, so there are more such runs than schedules. Server.Run.Served says what a
-- query that the handlers serve adds to the counters.
--
-- Main is src/main.rs: `setup` for main up to the server that it runs, `load_zones` on what the
-- files yield, and `handle_signal`, one turn of handle_signals, a SIGHUP with the files at that
-- time. Main.Lifetime has the process that follows: the server's own events and the signals, in any
-- order, and `Life` has the processes that they lead to. A reload reads the files and stores the
-- zones in one step; in a process it is handle_signals alone that writes the zones and cancels the
-- token.
--
-- Suite has unit tests of the repository, as functions into Bool that run on the model: Suite.Files
-- those of src/zone.rs that load a zone file, Suite.Zones its others, Suite.Answers those of
-- src/protocol.rs, Suite.Counters of src/metrics.rs, Suite.Limits of src/ratelimit.rs, and
-- Suite.Security and Suite.Denial of src/dnssec.rs. Suite.Names has concrete domain names, lists of
-- labels in lower case, and Suite.Readers concrete readers for base64, hexadecimal digits and the
-- names of types. A property test is a function of the values that are generated for it.
--
-- There is no fuel: each loop is structural recursion, over the labels of a name, the zones, the
-- records or the rounds. The three loops that cut a response empty the section they test, so that
-- each runs at most once and is a single step here.
--
-- Not modelled: the sockets, the web framework and the YAML reader themselves, the logger, log
-- lines other than those of the metrics, and the handler of platforms other than Unix, which does
-- on Ctrl+C what the signals that stop the server do; of the unit tests, those that start a web
-- server or a socket, read YAML, or encode messages.
pub mod Prelude
pub mod HashMap
pub mod Dns
pub mod Zone
pub mod Protocol
pub mod RateLimit
pub mod Dnssec
pub mod Metrics
pub mod Config
pub mod Api
pub mod Server
pub mod Main
pub mod Tests
pub mod Suite
