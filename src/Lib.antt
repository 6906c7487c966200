-- ===== src/Lib.antt =====
-- The end hosts of OrbitCache, an in-network key-value cache: the clients, the storage servers and
-- what they share. A switch between them (orbitcache/orbitcache.p4) answers reads of hot keys from
-- packets that circulate in it. A client draws a key, sends a request to the server that the key
-- belongs to, and takes replies from the switch or from a server. Different keys may share a hash, so
-- the client compares the key of a cached reply with the one that it asked for and, if they
-- differ, sends a correction, which always goes to the server.
--
-- Which file models what:
--   Prelude, Prelude/*: library names, list, word, bit and integer lemmas. Run: a result or a fault of
--     C. Os: programs that make calls of the system and return or exit; the answers of the system are
--     the record `Host`. Double: the floating-point operations that the code uses, an interface.
--   Text: the string functions of the C library on byte lists, as far as the source uses them, and
--     `atoi`. Clock: header.h, `get_cur_ns` and `get_cur_us`.
--   Hash, Key: header.h, `fnv1_16_str` to `murmurHash3`, `complex_transform`, `tostring_key`.
--   Store: header.h, `kv_hdr` to `tommy_get_init`. The heap is the list of the objects allocated; the
--     table is a parameter, the record `Tommy`, which states what TommyDS promises: a search finds the
--     first inserted object with the hash that passes the comparison. Store/Assoc is the abstract
--     view, an association list.
--   Packet: the three packed structs of header.h, as bytes, and what `sendto` and `recvfrom` do to
--     them; Packet/Endian: `htonll` and `ntohll`.
--   Routing: the host and the worker of a key (client.c `tx_t`, server.c `worker_t`), `dst_ip`.
--   Server: server.c `worker_t`. Server/Load is the data preparation, Server/Window the receive limit;
--     Server/Nocache, Server/Netcache and Server/Orbitcache serve one received datagram, each with its
--     specification (Spec) and the proof that the handler implements it (Loop). Server/Memory is what
--     the code finds behind its arrays on the stack, Server/Values the abstract view of a worker's store.
--     Server/Loop is the receive loop of the three protocols over a socket, a list of datagrams;
--     Server/Loop/Order is its order, Server/Loop/Refines the specification of the loop from that of the
--     handler.
--     Server/Startup is `main`, the head of a worker and the socket to the controller; Server/Report a
--     round of the OrbitCache loop, with the parts under `DYNAMIC`; Server/Worker the worker up to that
--     loop.
--   Threads: how the threads of both programs get their numbers under a lock (`t_id`, `tx_id`,
--     `rx_id`), as steps of several threads in any order.
--   Client: client.c. Client/Seq is the table of sent keys (header.h `seq_put`, `seq_get`),
--     Client/Request one round of `tx_t`, Client/Reply one datagram in `rx_t`;
--     Client/Request/Laws and Client/Request/Nocache are what a request is;
--     Client/Send and Client/Receive are the loops of `tx_t` and `rx_t`, Client/Receive/Names
--     the names of its log files, printed by Text/Print; Client/Reply/Lost a reply that comes too late; Client/Main is `main` up to
--     the report, Client/Report the report.
--   Popularity: the sketch of key popularities of header.h (`hash2` to `getPopularity`), and the
--     report of the ten most popular keys (`heapify` to `resetReport`).
--   Workload: the binary searches of header.h for a skewed key; Workload/Table the tables
--     (`initialize_pmf`, `initialize_reverse_pmf`, `precalculate_zipf_cdf`). Preload: the packets of
--     preload.c; Preload/Main its `main`.
--   System: clients and a worker together; System/Requests and
--     System/NocacheRequests any number of requests in a worker's loop;
--     System/Exchange the answers at the client's Rx worker; System/Ports the ports of requests and of workers.
--   Tests: the examples of README.md, and the theorems at concrete inputs.
--
-- Numbers are natural numbers with the wrap-around of the C type written out; the counters of the
-- client and of the sketch are plain numbers, since a run is too short to reach 2 ^ 31. An index behind
-- `global_par_counter` is a fault. Loops are
-- structural recursion over the number of rounds or over the string; `heapify` and the two binary
-- searches run on fuel, the number of items or keys, which is enough since an index grows or the
-- interval shrinks in each round.
-- The wait of a Tx worker runs on fuel, the number of clock readings that one wait may take; where the
-- clock passes the time of the last request within that many readings, the loop ends.
-- `rand`, the gaps between requests, the clock, the bytes behind arrays, the success of `malloc` and the
-- answers of the system are inputs. An `atoi` of a number that an `int` has no room for is undefined in
-- C and is that number here. Numbers that a theorem on tables or rates speaks of are no NaN where it
-- says so.
--
-- A thread may end the process while `main` creates and joins threads (`alive` of `Host`). A worker never
-- returns from its loop, so that the server's `main` stays in its first join; a client's thread that is
-- joined is taken to end.
--
-- Not modelled: TommyDS (a bundled library, a parameter); the switch programs and their controllers
-- (P4 and Python; a reply from the switch is an input of the client); the socket options and address
-- structures behind `bind` and `sendto`, which name the port and address only; what nothing calls or
-- nothing reads (`printTopK`, `fixed_dist`, `initialize_arr`, the unused locks).
pub mod Prelude
pub mod Text
pub mod Hash
pub mod Key
pub mod Store
pub mod Packet
pub mod Run
pub mod Os
pub mod Threads
pub mod Double
pub mod Clock
pub mod Routing
pub mod Server
pub mod Popularity
pub mod Client
pub mod Workload
pub mod Preload
pub mod System
mod Tests
