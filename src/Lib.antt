-- ===== src/Lib.antt =====
-- A model of dirtyNet and of the programs in its sandbox, with the theorems that make them correct.
--
-- The program has three layers. lib/dirtynet/detail/posix wraps the system's addresses, ports and
-- sockets; lib/dirtynet passes these on as the public classes; sandbox holds programs that talk over
-- UDP and TCP, the largest of which, sandbox/tcp-packet, frames packets over a TCP stream. The former
-- library, archive/legacy-dirtynet, stands by itself.
--
-- Files and what they model:
--   Prelude            names from the libraries, lists and tests over native numbers, signed numbers,
--                      and Run: done, fault (an access out of bounds, undefined in C++) or stuck (the
--                      model's fuel ran out, which the theorems exclude).
--   ByteOrder          a host's byte order and htons, ntohs, htonl, ntohl; a number in memory is the
--                      list of its bytes. Every theorem holds for both byte orders.
--   Memory             memcpy, resize and erase on a block of memory, with their bounds.
--   Text               std::to_string of a number and c_str().
--   Packet             sandbox/tcp-packet/posix/shared: packet, encode, parse_packet. Its children:
--                      Shape (the wire format, and what encode writes), Parse, RoundTrip, Reading
--                      (all answers of the parser), Outcomes.
--   Stream             get_packets of sandbox/tcp-packet/posix/server/main.cc and client/main.cc, which
--                      are the same function. Its children: Split, Loop, Chunks.
--   Posix.Port, Posix.Ip, Posix.Endpoint
--                      lib/dirtynet/detail/posix/port.hh, ip.hh and endpoint.hh.
--   Posix.UdpSocket    lib/dirtynet/detail/posix/udp_socket.hh: the live objects and the system calls made.
--                      Its child Ownership: who owns which descriptor.
--   Public             lib/dirtynet/port.hh, ip.hh, endpoint.hh and udpsocket.hh: the public classes, which
--                      hold the native objects. Its child Value: endpoints up to operator==.
--   Session            what both main functions do with a connection: its state (what read() will give, the
--                      bytes kept in incomingBuffer, the calls made), get_packets, the loops that collect
--                      packets, and the early returns, as a monad. Its children: Ensures (total
--                      correctness of a part of main), Receive, Collect, Progress, Batch, Brings; Stalled
--                      and Awaits (a part of main that waits for messages, on a connection that brings
--                      them or gives out before), Dialogue (main as one side of a dialogue in turns).
--   Server, Client     the main functions of sandbox/tcp-packet/posix/server/main.cc and client/main.cc.
--                      Their children: Phases (the server's only), Transcript (the session), Main,
--                      Polite (a peer that follows the protocol), Awaits, Talks (each as a side of the dialogue).
--   Meeting            the two programs together. Its children: Network (two sides and the bytes under way
--                      between them, as a step relation), Turns and Reads (a read within a turn), Order,
--                      Schedules (what every schedule keeps), Mains (the two main functions).
--   Text.FromChars     std::from_chars in base ten, on an unsigned type.
--   Sandbox            what the smaller programs of sandbox share: a run over the calls made, which the
--                      system answers, and a text received into a buffer and ended by a NUL. Its children:
--                      Laws, Receive.
--   UdpMany            sandbox/udp-many/posix: ParsePort (parsePort of the two clients), Clients
--                      (unicast-client/main.cc, multicast-client/main.cc), Host (host/main.cc), Delivery
--                      (the host and a client together).
--   UdpPing            sandbox/udp-ping: Posix and Library, for the programs of posix and of dirtynet;
--                      Library.Exchange (the latter two together); Agree
--                      (a program over the system's calls and its twin over the library).
--   TcpPing            sandbox/tcp-ping/posix: server/main.cc and client/main.cc. Its children: Laws (the
--                      server's loop), Conversation (the two programs together).
--   Legacy             archive/legacy-dirtynet/core, the former library: Util, VectorView, SocketFd, Ip (ipv4,
--                      ipv6 and ip), Endpoint, Udp. A std::string_view is its text and what stands behind
--                      it in memory, since some of this code reads on. The files in it: Util.Split and
--                      VectorView.Items (lemmas on texts and places), Laws for each part, VectorView.Wrap.
--
-- Conventions. A byte is a number below 256; uint16_t and uint32_t values are numbers with their
-- wrap-around written out; size_t is taken not to wrap, except where a VectorView is made. A function
-- that writes to std::cout is modelled without that output, unless a message received is printed.
-- inet_pton and inet_ntop are the members of an argument, and what POSIX documents of inet_pton's
-- result is a record of hypotheses (Posix.Ip.Parse.InetLaws). To take the address of an item that a
-- vector or a string_view does not have, as &vec[begin] and &ipString[0] of the archive may, is a fault.
-- What read() gives is an argument too: any sequence of failures and blocks of bytes, and behind it the
-- end of the stream. So is what write() returns, which may depend on the calls made before.
--
-- In Meeting a step is one read() that gets some of the bytes which the other side has written and this
-- side has not read, one at least, in order; write() hands all its bytes to the connection. What a side has
-- written when it waits for its next read is what main has written on a connection that ends there, since
-- nothing that main does before that read depends on its answer. A run stops where no step can be made.
--
-- Fuel. The loop of get_packets gets as many rounds as there are bytes in its buffer: every packet takes
-- at least four. Buffers are taken to be shorter than 4 GiB (Packet.Outcomes.IsBuffer), since beyond
-- that the parser's 32-bit total may be zero. A loop of main that collects packets gets a round for each
-- answer that read() will still give, and one more: each round uses one up, or is the last. The echo loop
-- of tcp-ping need not end; it runs for a number of rounds, and still_running is what it is at behind them.
--
-- Not modelled: of the archive the empty backend classes (backend_traits, backend_tags), its tests and
-- its benchmarks, and to_int for signed types; of sandbox, waiting and the values of socket options; the
-- build's stubs and type aliases (dirtynet.cc, exec, perf, detail/native_*.hh), which do nothing of
-- their own.
pub mod Prelude
pub mod ByteOrder
pub mod Memory
pub mod Packet
pub mod Stream
pub mod Text
pub mod Posix
pub mod Public
pub mod Session
pub mod Server
pub mod Client
pub mod Meeting
pub mod Sandbox
pub mod UdpMany
pub mod UdpPing
pub mod TcpPing
pub mod Legacy
