-- ===== src/Lib.antt =====
-- The programs of this repository that carry logic of their own, with the properties that make them
-- correct. Numbers are natural numbers; a machine word keeps its wrap-around written out. Texts and
-- buffers are lists of bytes. The hosts are little-endian.
--
-- Homework 1, a router (Teme/Tema1):
--   Checksum   ip_checksum and icmp_checksum of skel.c, for every alignment of the data.
--   Hwaddr     hex2num, hex2byte and hwaddr_aton of skel.c; a read behind the string is `overrun`.
--   Frames     send_packet, send_icmp, send_icmp_error, send_arp, parse_arp and parse_icmp of skel.c:
--              a call of `write` is a `Frame`.
--   Routes     readRtable, comparator and get_best_route of router.c.
--   Arp        the ARP table of router.c.
--   Router     the loop of `main` in router.c: `serve` is one round, `receive` is get_packet. Its state
--              is the ARP table, the queue of waiting packets and the variable `m`. The queue holds
--              references: `owned` packets of the heap, or `dangling` addresses of a variable whose
--              block has ended. A round that reads such an address, or through NULL, or writes behind
--              the ARP table is `undefined`.
--   Heap       list.c and queue.c, and the queue of Lab02/link_emulator/queue.c, on a heap of cells;
--              Heap.Fifo and Heap.LinkFifo have the lists that they stand for.
-- Laboratory 4, a router (Lab04/router.c):
--   Forwarder  get_best_route and the loop of `main`; packets, rows and checksum are those of homework 1.
-- Laboratory 2, a file exchange (Lab02) over a link emulator (Lab02/link_emulator):
--   Exchange   send.c and recv.c, where the link loses and delays nothing.
--   Link       receive_message1, run_forwarding and link_scheduler of link.c. A thread is cut at its
--              critical sections, and `Link.Interleaving.Steps` lets the pieces come in any order.
--   Link.Params  split_param of link.c.
-- Homework 3, a library client (Teme/Tema3), and laboratory 10 (Lab10), with the same buffer:
--   Buffer     buffer.c.
--   Helpers    the exchange with a server of helpers.c, over the results of `read` and `write`.
--   Client     client.c: the requests (Client.Messages), the branches of the commands, and the loop
--              (Client.Loop).
--   Http       requests.c of laboratory 10.
-- Laboratory 11, a mail client (Lab11/send_mail.c):
--   Mail       read_line, send_command and the dialogue of `main`.
-- The other router ("pc pirvu"), in C++:
--   Trie       the rows and the trie of include/rtable_entry.h, trie.h and rtable.h.
--   TrieFrames the four functions of router.cpp that build a frame; a new packet holds what its memory
--              held, the parameter `memory`.
--   TrieRouter the loop of `main` in router.cpp, with its ARP table and a queue of packets by value.
--              Bytes, checksum and header layouts are those of homework 1.
-- Homework 2, publish and subscribe (Teme/Tema2), in C++:
--   Broker     server.cpp: Broker.Parse is processUdpPacket, Broker.Commands what a client asks for,
--              Broker.Run the loop, one `Event` for each thing that `select` reports.
--   Subscriber subscriber.cpp: reading lines from the stream, and the commands.
-- The practical test (Partial), in C++:
--   Accounts   server.cpp: the accounts and the commands. Accounts.Client is client.cpp.
-- Laboratory 5, ICMP tools (Lab05):
--   Ping       ping and traceroute of icmp.c, and relevant_packet and time_packet of utils.c.
-- Laboratory 6, a file transfer (Lab06):
--   Transfer   the loops of client.c and server.c. No call fails there.
-- Laboratory 8, a chat (Lab08):
--   Relay      the loop of server.c, one `Event` for each thing that `select` reports.
-- Assoc is `unordered_map` of the C++ programs, Scan is `%s` and `%d` of sscanf.
-- Prelude, Bytes and Text hold what these share; Tests applies the theorems to concrete inputs.
--
-- Bounds and fuel: get_best_route runs on one more round than the table has rows, which is enough, as
-- it never ends in `out_of_fuel`. `Client.Loop.run_client` runs on as many rounds as its fuel says, and
-- each round reads a line. `Client.Messages.digits` has ten divisions, enough for an `int`.
-- `Ping.traceroute` and `Subscriber.listen` run on a number of rounds, and as many as there are hops or
-- messages are enough. All other loops follow the data that they read. The arrays of fixed size are
-- written out as tests: 66000 rows of both tables, 1000 messages of the link's buffer, 500 bytes of a request or a mail, 4096 bytes of
-- a request of laboratory 10.
--
-- In the C++ programs and in laboratory 8 the socket functions do not fail, since `DIE` ends the
-- program then, but for a `send` of Relay to a number that is no connection, and a receive leaves room
-- for a NUL, but for the lines that Subscriber prints, of which one that fills its array is a read behind
-- it. A routing table names only interfaces that there are: an index outside of `interfaces` is no fault
-- of Router.
--
-- Taken as parameters: what sscanf, atoi, strtol and tolower of the C library return in the programs
-- of homeworks 1 and 3, the text of a stream in fixed notation, the addresses of the interfaces and
-- the process id, the clock and the random numbers, and what a server answers. That qsort sorts is a
-- hypothesis where it is used.
--
-- Not modelled: setting up sockets, the queries of interface addresses, the command lines, the line
-- `exit` on the account server's own input, hex_dump of Lab05/utils.c, the programs of laboratories 1,
-- 3, 7, 9 and 12, the client of laboratory 8, and the programs in Python.
pub mod Prelude
pub mod Bytes
pub mod Text
pub mod Checksum
pub mod Hwaddr
pub mod Routes
pub mod Arp
pub mod Frames
pub mod Router
pub mod Heap
pub mod Forwarder
pub mod Link
pub mod Buffer
pub mod Helpers
pub mod Client
pub mod Http
pub mod Mail
pub mod Assoc
pub mod Scan
pub mod Trie
pub mod TrieFrames
pub mod TrieRouter
pub mod Broker
pub mod Subscriber
pub mod Accounts
pub mod Ping
pub mod Transfer
pub mod Exchange
pub mod Relay
pub mod Tests
