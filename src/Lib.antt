-- ===== src/Lib.antt =====
-- The sponge TCP/IP stack, a user-space implementation of TCP.
--
-- A `TCPConnection` joins a `TCPSender` and a `TCPReceiver`. The sender takes bytes out of an
-- outbound `ByteStream`, cuts them into segments within the window of its peer, keeps them until
-- they are acknowledged, and sends the oldest one again when its timer expires. The receiver turns
-- the 32-bit sequence numbers of the segments that arrive into 64-bit stream indices, and hands
-- their payloads to a `StreamReassembler`, which puts them in order in a circular buffer and
-- writes them to an inbound `ByteStream`. The connection stamps each segment of the sender with
-- the receiver's acknowledgment number and window size, and decides when it is over.
--
-- An adapter takes the segments of a connection to a device: `TCPOverIPv4Adapter` wraps them in IPv4
-- datagrams, which go to a TUN device as they are, or to a TAP device through a `NetworkInterface`. That
-- puts a datagram into an Ethernet frame for the address of its next hop, which it asks for by ARP, and
-- takes datagrams out of the frames that arrive. A `Router` has several interfaces and sends each
-- datagram that arrives on by the longest prefix that matches.
--
-- Which file models which code:
-- - WrappingIntegers: libsponge/wrapping_integers.hh and wrapping_integers.cc.
-- - ByteStream: libsponge/byte_stream.hh and byte_stream.cc.
-- - StreamReassembler: libsponge/stream_reassembler.hh and stream_reassembler.cc. `store_data` and
--   `write_to_output` are the private methods of these names, their loops are `store_from` and
--   `collect`.
-- - TcpSegment and TcpConfig: the data of libsponge/tcp_helpers/tcp_header.hh, tcp_segment.hh and
--   tcp_config.hh. TcpSegment/Wire: tcp_header.cc and tcp_segment.cc, the bytes of a segment.
-- - TcpReceiver: libsponge/tcp_receiver.hh and tcp_receiver.cc.
-- - TcpSender, with TcpSender/Timer: libsponge/tcp_sender.hh and tcp_sender.cc. The loop of
--   `fill_window` is `fill_loop`, with a round in `fill_round`.
-- - TcpConnection: libsponge/tcp_connection.hh and tcp_connection.cc.
-- - TcpState: libsponge/tcp_helpers/tcp_state.hh and tcp_state.cc, with a constructor for each of
--   the summarizing strings.
-- - Ipv4, Ethernet and Arp: libsponge/tcp_helpers/ipv4_header.cc, ipv4_datagram.cc,
--   ethernet_header.cc, ethernet_frame.cc and arp_message.cc with their headers. A part called Lax holds
--   what a parser lets pass.
-- - NetworkInterface: libsponge/network_interface.hh and network_interface.cc. The loop over the queued
--   datagrams is `send_queued`; NetworkInterface/Run has sequences of calls.
-- - Router: the table and `route_one_datagram` of libsponge/router.hh and router.cc, for any interfaces.
--   Router/Async: `AsyncNetworkInterface`, `Router` and `route`, for those of NetworkInterface.
-- - Adapters: libsponge/tcp_helpers/tcp_over_ip.cc, tuntap_adapter.hh and tuntap_adapter.cc, with
--   FdAdapterBase of fd_adapter.hh. Adapters/Udp: fd_adapter.cc. Adapters/Lossy: lossy_fd_adapter.hh.
-- - SpongeSocket: the rules of the event loop in libsponge/tcp_helpers/tcp_sponge_socket.cc.
-- - Parser: libsponge/util/parser.hh and parser.cc.
-- - Buffers: libsponge/util/buffer.hh and buffer.cc. Checksum: `InternetChecksum` of libsponge/util/util.hh
--   and util.cc.
-- A class is a record of its data members; a method takes the record and returns the new one. The
-- modules below a part hold its proofs, and its tests with an example for each result.
--
-- Conventions: a `size_t` or `uint64_t` is a number below 2 ^ 64 and a `WrappingInt32` one below
-- 2 ^ 32; sums and differences are taken modulo these (`add64`, `sub64`, `add32`, `sub32`), save
-- where a test just before rules the wrap-around out. A string is the list of its bytes, a queue the
-- list of its elements, front first. A map is an association list. The stream that a peer sends is a
-- function from indices to bytes. A `Buffer` that is parsed, or that is the payload of a segment, is
-- the list of its bytes; the payload of a datagram or a frame, and what a serialization returns, is
-- a `BufferList` of Buffers, whose conversion to one buffer, `to_buffer`, throws if it has several.
-- So a datagram or a frame that was just put together has to be serialized and parsed before it can
-- be taken apart. An `Address` is its `ipv4_numeric`, with its port where that is used. Where a
-- function of the program may throw, its model returns an Option.
--
-- Fuel: the loop of `fill_window` gets two rounds more than there are bytes in the stream, and the
-- one of `write_to_output` one more than the buffer has cells. Each round but the last takes a byte
-- out, or sends the FIN, or empties a cell; `Ends` in TcpSender/FillWindow is the loop of
-- `fill_window` without fuel. The loop over the queued datagrams of an interface gets as many rounds
-- as there are datagrams, and the one of `route` over a queue one more than that: a round passes or
-- takes out a datagram. The loop that folds a checksum gets three rounds, of which a 32-bit sum
-- needs two at most.
--
-- What is a parameter: the random initial sequence number of a sender and the random numbers of a lossy
-- adapter; for the router's table the types of addresses and interfaces, `Address::from_ipv4_numeric` and
-- `NetworkInterface::send_datagram`; for the lossy adapter and the sponge socket the adapter that they
-- stand on. What a device or a socket reads is an argument, what is written to it a result. The router's
-- prefix lengths are at most 32, as a longer one is undefined behaviour in its shift.
--
-- Where a test or a document expects something else than the code does: tests/fsm_ack_rst.cc:148-161
-- wants a connection that has only sent its SYN to ignore data and a RST without an ACK, whereas
-- `segment_received` answers the one and is reset by the other; libsponge/byte_stream.hh:10-12 wants
-- no more bytes to be written after the end of the input, whereas `write` does not look for it. The
-- model does what the code does.
--
-- What is not modelled: the functions that only print; the sockets, file descriptors, addresses of the
-- operating system and event loop, which are system calls; the threads of the sponge sockets and how
-- they wait; and the applications and tests.
pub mod Prelude
pub mod WrappingIntegers
pub mod ByteStream
pub mod StreamReassembler
pub mod TcpSegment
pub mod TcpReceiver
pub mod TcpConfig
pub mod TcpSender
pub mod TcpConnection
pub mod TcpState
pub mod Ipv4
pub mod Ethernet
pub mod Arp
pub mod NetworkInterface
pub mod Router
pub mod Parser
pub mod Checksum
pub mod Buffers
pub mod Adapters
pub mod SpongeSocket
