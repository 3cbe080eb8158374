-- ===== src/Lib.antt =====
-- The network programs of the repository: the network driver and the protocol that programs speak
-- with it, the VLAN switch, the IPv4 router and the ARP responder; and the harness that tests them.
--
-- The driver (network-driver.c) starts a program and passes it every frame that its interfaces
-- receive, the commands of the user, and once, at the start, the MAC addresses of the interfaces,
-- as messages on the standard input; what the program writes goes out on the interfaces. Each
-- program calls `loop` (loop.c) with three callbacks, for a frame, a command and an address, and
-- writes messages with `write_all` and `print` (print.c).
--
-- Base                 Boolean tests, lists with native lengths, faults, bytes in network order.
-- Libc                 strchr, strtok, sscanf with "%u", strcasecmp and inet_pton, as far as the
--                      programs use them. Libc/Tokens and Libc/Scan have what is known of them.
-- Wire                 glab.h and `print`: the header of a message. Wire/Write is `write_all` of
--                      print.c, Wire/Loop is loop.c: `loop` is `loop`, its outer loop `run`, what
--                      follows a read `receive`, its inner loop `drain`, one message `consume`, and
--                      the switch on its type `dispatch`. Stream, Delivery, Safety
--                      and Commands are about it.
-- Vswitch              vswitch.c. Table has mac_hash, learn_mac and lookup_mac; Forward has
--                      interface_in_vlan, send_frame, forward_frame and flood_frame; Frame has
--                      parse_frame (`frame_vlan` is its steps 1 to 3, `forward` its step 5),
--                      handle_frame, handle_control and handle_mac; Args has the parsers of the command line and
--                      main (`start`). Learning, Tagging, Invariant, Isolation, Unicast and
--                      ArgsLaws are the proofs.
-- Router               router.c. ArpCache and Routes have the two tables, Frame what happens to a
--                      frame (forward_to to handle_frame), Args the command line and main
--                      (`start`), Command the commands of the user (handle_control). Cache, Table,
--                      Sending, ArpFrame, Arp, Invariant, Effect, Words and Running are the proofs.
-- Arp                  arp.c, with the structures and forward_to of Router, whose text it repeats.
--                      The module itself has the cache (hash_ip, add_to_arp_cache,
--                      remove_from_arp_cache, lookup_arp_cache), Frame has parse_frame
--                      (`handle_arp` is its part behind the copy of the ARP header), handle_frame,
--                      handle_mac and handle_control, Args the command line and main (`start`).
--                      Cache, Answers and Control are the proofs.
-- Driver               network-driver.c. The module itself has the variables of `run`, and what
--                      `select` and the calls behind it return; Round has the loop of `run`, one
--                      definition for each part, composed in `round`. `bufin`, `cmd_line` and each
--                      `buftun` are the lists of the bytes that they hold, and `current_read` has
--                      the bytes that are left of its message. Waiting, Lines, Begun and Child are
--                      the proofs for the direction to the child, Parcels, Sending, Outgoing and
--                      Network those for the direction from it; Session is about the driver with a
--                      child that runs `loop`, and Fuel about `rbuf_again`. Parts and After say that
--                      the rounds keep what every part of the loop keeps.
--
-- Harness              harness.c and harness.h, which start a program in the driver's place. The module
--                      itself has the buffer, tsend and set_dest_mac; Expect has expect_frame and
--                      expect_multicast, Receive has trecv (its inner loop is `fill`, its outer one
--                      `attempt`), expect_silence and run, and Meta has meta. Stream, First,
--                      Refinement, Masks, Multicast, Masked, Flooding, Skipping, Silence, Sending,
--                      Addresses and Endless are the proofs; Passing puts the switch of Vswitch under
--                      the harness.
-- Hub                  hub.c.
-- VswitchTest          test-vswitch.c. The module itself has how it talks to the switch, its frames,
--                      test_broadcast_flooding and test_multicast; Frames, Hearing and Flooding are
--                      the proofs, and Passing puts the switch of Vswitch under the two tests.
--
-- The global variables of a program are a record that its callbacks take and return, with what they
-- write. `abort`, an access outside an object and, in the harness, a shift that is undefined are
-- the faults of `Result`. A pointer into an array is an index; a MAC address, a frame and a text
-- are lists of bytes; an IPv4 address is the number that ntohl reads. Sums that a `uint16_t` or an
-- `unsigned` holds are cut off as in C.
--
-- Bounds: `drain` takes the number of bytes in the buffer as fuel, and each round removes four or
-- more; `handle_bufin`, the jumps to `rbuf_again`, takes one unit more than the bytes in the
-- buffer, and each jump over a text of four bytes or more removes as many; `write_all` takes the
-- size of its buffer, and each round writes one byte or more. `trecv` takes the number of attempts
-- that are left and of the bytes in the buffer and the pipe, since each round takes an attempt or
-- a message of four bytes or more; `skip_texts`, the loops of expect_silence over texts, has the
-- fuel that expect_silence is given, of which one unit more than the buffer's 65536 bytes is
-- enough, as long as every text has four bytes or more. A text of size 0 takes nothing away: there
-- neither loop of the harness ends within any fuel. No other loop needs fuel. The tables have the
-- sizes of the source: 1024 addresses in the switch, 256 routes and 256 addresses in the router.
--
-- In network-driver.c, a text of the child with a size below 4 makes a `fprintf` that nothing limits.
-- For a size of 0 the jumps do not end after it, and the model runs out of fuel (`running`); for a
-- size from 1 to 3 the model does not follow the code and stops (`unbounded`), and no result says
-- anything of what comes then.
--
-- Parameters: what the kernel answers to a `write`, how `read` cuts the input, what the clock
-- shows, and, for the driver, what each round learns from `select`, `read`, `write`, `sendto` and
-- `recvmsg`. A `sendto` with the length that a message size below 4 leads to is taken to fail. For
-- the harness: what `select` and `read` return while it waits (`Wait`), which the time left to
-- `select` shows in; for test-vswitch.c, the program that it starts and the answers of `select`.
--
-- Not modelled: diagnostics on the standard error; the failure of malloc and its kind; the commands
-- that only list or test something; the part of network-driver.c that opens the interfaces and
-- starts the child, and that of harness.c, which are system calls only. In `expect_frame`, the
-- second comparison is not made for a negative length, which no size of a message from 4 on can
-- equal. crc.c is a copy of the checksums of GNUnet. switch.c and parser.c are skeletons: their
-- callbacks are those of hub.c, which is one too, with other functions that have no body.
-- test-arp.c, test-hub.c and test-router.c are scripts of fixed frames; four of the tests of
-- test-vswitch.c, and so its main, do not compile. The compiled references are no part of the
-- system.
pub mod Base
pub mod Libc
pub mod Wire
pub mod Vswitch
pub mod Router
pub mod Arp
pub mod Driver
pub mod Harness
pub mod VswitchTest
pub mod Hub
