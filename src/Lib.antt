-- ===== src/Lib.antt =====
-- Multithreaded chat application: a verification library for the server and the client.
--
-- The program. A server and its clients exchange UDP packets. On both sides a listener thread puts
-- each packet into a bounded queue (queue.h) and a queue manager takes it out, cut into words; the
-- parser (cmd.h) makes a command of the words. The server (server_interface.c) runs a handler for
-- the command over the linked list of its clients (server_types.h), which a reader-writer lock
-- guards, and sends packets to clients. The client (client_interface.c, client_types.h) runs a
-- handler over its screen's messages and its set of muted names (custom_hash_table.h).
--
-- The files, and what they model:
--   Base, Base/*       names of the libraries, Boolean tests, lists, text literals, `do` blocks
--   CString, CString/* strncpy, strtok and C strings over memory given as a list of bytes
--   Queue, Queue/*     queue.h: q_append and q_pop as single steps; Inv and Window hold the
--                      invariant, Refine the bounded list that it implements, Schedule any order
--                      of calls, Alias the life of the returned pointers; WordAt, Tokens and
--                      Tokenise follow the cut of a message into words
--   Cmd, Cmd/*         cmd.h: command_handler, with kind_of for its tests and fill_args for its
--                      loops
--   HashTable, HashTable/*  custom_hash_table.h: the table, the set it implements, the sender's
--                      name in front of a colon
--   ClientList, ClientList/*  the linked list of server_types.h and the searches of
--                      server_interface.c on an explicit heap of nodes
--   Monitor, Monitor/* the reader-writer lock of server_types.h, as steps of any number of threads
--   Join, Join/*       join_args of server_types.h and join of client_types.h
--   Server, Server/*   the handlers of server_interface.c and spawn_execute_command_threads: View
--                      reads the linked list, Handlers and Members give each handler's outcome,
--                      Valid, Execute and Dispatch the server as a whole, History the stored
--                      lines, Race the history between the threads of say,
--                      Phases the handlers cut where they leave the lock, and their threads'
--                      steps in any order (Phases/System)
--   Client, Client/*   the handlers of client_types.h, execute_server_command,
--                      handle_cli_side_cmd, the bytes that chat_display prints (Screen, and Reading,
--                      which reads them back), and what the input threads do with a typed line
--                      (Client/Input)
--   Pool               the worker pool's counter of server_types.h
--   Service, Service/* the server as a whole: listener, queue manager, threads of the commands and
--                      inactivity check as the events of a schedule, from the start of main; Hall is
--                      its specification, Rounds, Agree and Refine compare the two, Crashes,
--                      Reached, Fine, Orderly and Booted say what schedules lead to and
--                      send
--   Room, Room/*       the specification of the client list, the history and the handlers, with no
--                      pointers; Packets, Private and Fine hold the bounds of what it sends,
--                      Authority who may change it and whom a private line is for
--   Client/Node, Client/Node/*  the client's listener, queue manager and command threads
--   Client/Program, Client/Program/*  the client as a whole: its node and the two input threads of
--                      client_interface.c, with their waits, the input and the socket; Waits
--                      follows the waits, Opened the socket, Lines, Sends and Talks the lines
--                      and their packets, Connected and Harmless the node
--   Network, Network/* the server and any number of clients, with the datagrams between them
--   Startup, Startup/* the argument records of server_types.h and client_types.h, and the threads
--                      that main and the queue managers start with them
--   Sockets, Sockets/Laws  udp.h, and the opening of the sockets
--   Activity, Activity/Laws  a round of connection_manager of server_interface.c
--   Delivery, Delivery/*  the parts together: from the bytes of a packet to the command, a line of
--                      chat from its sender to the displays, and the words that a client survives
--   Tests, Tests/*     the properties at concrete inputs, and runs of the definitions
--
-- How state is modelled. A handler is a function from the state to an Option of the new state and
-- the packets sent; `none` is a fault of the program: a read through NULL or freed memory, or a
-- write past an array. In the queue `none` is a call that sleeps and tries again. Memory behind a
-- `char *` is the list of its bytes, and a name or a word is the list of its bytes without the NUL.
-- An address of a socket is one number, since the program only copies and compares it. Numbers are
-- natural ones; the hash wraps at 64 bits as `unsigned long` does. The counters of the lock and the
-- queue are `int`s that count threads and cells, and are not bounded. Time is an argument.
--
-- Bounds and fuel. The loops over linked lists run on fuel: the number of nodes ever allocated,
-- which a well-linked list never exceeds (the field `enough` of `Represents`). All other loops are
-- structural: over the bytes of a message, the free slots of `args`, the chain of a table.
--
-- The operating system. The calls behind udp.h are the record `Os` over a state of the system,
-- whose results are integers; `Descriptors` and `SocketLaws` name what the proofs rely on: which
-- calls open and close descriptors, and that a socket's is not the standard input's. In the
-- schedules, what a read from a socket gives is part of the event.
--
-- What is not modelled. The samples and red_black.c, which nothing uses. A sleep takes no time: any
-- other steps may come in between. Debug output is left out. In the schedules of the whole server
-- an event is a whole round or a whole handler; the places where other threads may come between
-- are in the lock, the queue, the history and the phases of the handlers, whose models take any
-- order of steps; the phases leave the history open, and Race has its steps. A signal of the
-- lock wakes its sleepers, which may also wake at any time. The one
-- buffer of join of client_types.h is not shared between threads here. The network carries packets
-- between the server and its clients only; what others send to a client is not in it.
pub mod Base
pub mod CString
pub mod Queue
pub mod HashTable
pub mod Cmd
pub mod ClientList
pub mod Monitor
pub mod Join
pub mod Server
pub mod Client
pub mod Activity
pub mod Pool
pub mod Room
pub mod Service
pub mod Sockets
pub mod Delivery
pub mod Network
pub mod Startup
pub mod Tests
