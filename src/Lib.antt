-- ===== src/Lib.antt =====
-- The firmware of a Black Magic debug probe on an ESP8266: a GDB server over TCP, a serial
-- bridge, a debug log and a terminal on web pages, and updates over TFTP. This library models
-- the parts with logic of their own. Names are the source's, in this language's spelling:
-- `gdb_getpacket` is `getpacket`, `CBUF_Push` is `push`.
--
-- Base: numbers, lists, bytes, integers and C's text functions, for all the others.
-- Packet: main/gdb_packet.cpp. Packet.Encode is `gdb_next_char`, `gdb_putpacket`,
--   `gdb_putpacket2`, `gdb_put_notification` and `gdb_out`, as the characters they send;
--   Packet.Decode is `gdb_getpacket`, an automaton over the characters that arrive, a phase for
--   each of its loops. Packet.Body, Packet.Frame, Packet.Receive and Packet.Resend are about them.
-- Lock: `gdb_lock`, `gdb_unlock`, `gdb_breaklock` and `gdb_restorelock` of main/gdb_if.cpp, on
--   the mutex and its count. Lock.Tasks lets any number of tasks use them, as the guard objects of
--   main/gdb_if.hpp do, in any order; Lock.Thrown adds the exceptions that leave their scopes.
-- Channel: the buffers of class `GDB_client` in main/gdb_if.cpp: `gdb_if_getchar` and
--   `gdb_if_getchar_to` in Channel.Input, `gdb_if_putchar` in Channel.Output. Channel.Clients is
--   the life of the clients: the loop of `gdb_net_task`, the start of `GDB_client::task`, `destroy`;
--   Channel.Counted and Channel.Owned are about `num_clients`, the sockets and the objects.
-- Cbuf: the macros of main/CBUF.h; Cbuf.Queue has them as a queue (on Cbuf.Window),
--   Cbuf.Interleaved a push and a pop that run at the same time, statement by statement,
--   Cbuf.Fifo what they do to the queue.
-- DebugLog: `putc_remote`, `debug_putc` and `dbg_task` of main/platform.c, `http_debug_putc` of
--   main/http.c. It is a client of Cbuf.
-- Tftp: main/ota-tftp.c. Tftp.Packet has the packets, Tftp.Field `tftp_get_field`, Tftp.Receive
--   `tftp_receive_data`, Tftp.Server one round of `tftp_task`, `ota_tftp_init` and
--   `ota_tftp_download`.
-- Gdb: main/gdb_main.cpp. Gdb.State has the variables, the calls of the probe firmware as
--   effects, and as the record Probe what these calls return. Gdb.Run, Gdb.Registers, Gdb.Memory,
--   Gdb.Query (`handle_q_packet`, with `handle_q_string_reply` in Gdb.Xfer) and Gdb.Verbose
--   (`handle_v_packet`, with the command line of `vRun` in Gdb.Cmdline) are the cases of
--   `gdb_main_loop`, Gdb.Server the switch, Gdb.Poll a round without a packet and the packet `?`.
--   Gdb.Pointers, Gdb.Handlers, Gdb.Attached, Gdb.Verbs and Gdb.Calls follow the targets that are
--   passed on, for Gdb.Safety and Gdb.Freed; Gdb.Lost is the exception that `GDB_client::task` of
--   main/gdb_if.cpp catches; Gdb.Answers and Gdb.Replies count replies, for Gdb.Answered.
--   Gdb.Report, Gdb.Access, Gdb.Stepping and Gdb.Flash are about runs of several packets or
--   rounds. Gdb.Wire is a round of the loop on characters, with the packet layer below it;
--   Gdb.Sending, Gdb.Conversation and Gdb.Notified are about it, and Gdb.Session about the loop with
--   the connection's buffers below. Gdb.Commands has the commands that are added to a target.
-- Web: `builtInUrls` of main/http.c and the requests of the pages in html. Web.Status is
--   main/hashmap.cpp and the run times of `cgi_status`, Web.Percent the handler with its
--   percentages; Web.History the lines of html/index.html, Web.Keys about its keys, Web.Rate its
--   button for the rate; Web.Upgrade is the script of html/flash/index.html, Web.Rebooting about
--   it.
-- Platform: of main/platform.c, Platform.Frequency is `platform_max_frequency_set` and
--   `platform_max_frequency_get`, Platform.Serial the rounds of `net_uart_task` and
--   `uart_rx_task`, Platform.Rounds both in any order, Platform.Counters and Platform.Turns about
--   the counters. Platform.Baud is the rate of the port, with `cgi_baud`, `cgi_uart_break` and
--   `cgi_tx_power` of main/http.c, Platform.Rates about it, Platform.Decimal `atoi` and the
--   numbers that are printed. Platform.Wifi is `event_handler` with `wifi_init_softap` and
--   `wifi_init_sta`, Platform.AccessPoint about them.
-- Exception: `raise_exception` and `TRY_CATCH` of components/blackmagic; Exception.Scopes is
--   what they promise.
-- Tests: runs on concrete inputs.
--
-- The packet layer calls the connection's buffers, the connection's waits break the lock, the
-- debug log stands on the circular buffer, the TFTP server on the transfer loop, and the GDB
-- server on the packet layer; a lost target is an exception that ends a round of the GDB server.
--
-- Bounds and fuel. Characters are numbers, below 256 where a theorem says so; `char` is
-- unsigned, as on this processor. Checksums wrap at 2 ^ 8, block numbers on the wire and lengths
-- of requests at 2 ^ 16, the indices of the circular buffer at the range of their type.
-- `gdb_getpacket`, the transfer loop and the calls of `recv` recurse on their input; a run that
-- needs more input than there is says that it waits. A round of the GDB server or of the serial
-- bridge is not interrupted; the tasks of the bridge share a socket without a lock, so that this
-- leaves out what an interrupted round does with a socket that the other task has closed. The retransmission loop recurses on the tries that are left. The
-- loop of `dbg_task` has 256 rounds of fuel; an index of 8 bits counts fewer entries.
--
-- Outside the repository, and so parameters: lwIP's `recv`, `send`, `select` and `netconn` calls,
-- the flash and the partitions, the UART's driver, `httpdFindArg`, `JSON.parse`; of the probe
-- firmware `hexify`, `unhexify`, `remote_packet_process`, `command_process` and the functions on
-- a target, REMOTE_SOM and REMOTE_EOM; what `sscanf` stores; libesphttpd's comparison of a
-- pattern with a path. The mutex of FreeRTOS is as documented: it is
-- not recursive, and its holder gives it back.
--
-- Not modelled: the set-up of pins and tasks in main/platform.c, the web sockets and the start of
-- the server in main/http.c, and the libraries html/xterm.js, html/xterm-addon-fit.js and
-- html/flash/140medley.min.js. Formatting by `vasprintf` and logging are C's.
pub mod Base
pub mod Packet
pub mod Lock
pub mod Channel
pub mod Cbuf
pub mod DebugLog
pub mod Tftp
pub mod Web
pub mod Gdb
pub mod Exception
pub mod Platform
pub mod Tests
