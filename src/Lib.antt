-- ===== src/Lib.antt =====
-- The communication protocol projects: the IPv4 router of Tema_1, the message broker
-- of Tema_2 and the HTTP client of Tema_3.
--
-- The router (Tema_1). router.c runs a loop over received packets: it answers echo requests, checks
-- the time to live and the checksum, looks a route up, and forwards the packet, or asks for a
-- hardware address by ARP and keeps the packet in a queue; ARP replies fill a table and release from
-- the queue.
--   Router/Bytes      a packet's payload as a table of bytes; little-endian host words
--   Router/Hex        hex2num, hex2byte, hwaddr_aton (skel.c)
--   Router/Checksum   ip_checksum, icmp_checksum (skel.c)
--   Router/Route      comparator, get_best_route (router.c)
--   Router/Arp        get_arp_entry and the learning from a reply (router.c)
--   Router/Queue      queue.c and list.c on a heap of cells; Interface is the queue as the loop sees
--                     it, a record of operations and laws that the pointer queue fills
--   Router/Frames     struct packet, send_packet, send_icmp, send_icmp_error, send_arp, parse_arp,
--                     parse_icmp (skel.c)
--   Router/Headers    the header fields that the loop reads and writes
--   Router/Setup      parsing_rtable and the sorting before the loop (router.c)
--   Router/Sockets    get_sock, init, socket_receive_message, get_packet and the interface names
--                     (skel.c)
--   Router/Main       the body of the loop of main: handle_ip for lines 133 to 194 of router.c,
--                     handle_arp for lines 197 to 236, round for both, run for the loop over packets
--   Router/Program    main: the sockets, the table from the file, and the loop over what get_packet gives
-- The loop takes the queue as a parameter (Fifo). A round maps the state (ARP table, queue, the
-- storage of the local `p`) and a packet to the new state and the frames sent, in order; `none` is
-- undefined behaviour: a write behind the ARP table, a fault of the queue, a NULL route. The read of
-- the dead `p` (lines 184 to 186 and 224) is undefined in C as well, but no fault here: it gives
-- what Env says, and a theorem that reaches it names what it takes of it, that the storage of `p`
-- keeps its contents (Retains of Router/Main/Arp).
--
-- The broker (Tema_2). server.cpp takes datagrams under a topic and passes them on to the clients that
-- subscribed to it; subscriber.cpp is the client. Both are loops over ready descriptors.
--   Broker/Map         std::map<string, V>, as server.cpp uses it
--   Broker/State       the structs of utils.h, the maps of the server, the events and actions
--   Broker/Publish     on_datagram: lines 121 to 169 of server.cpp
--   Broker/Connect     on_request: lines 171 to 247
--   Broker/Command     on_message: lines 248 to 324
--   Broker/Server      step for all the branches of the loop, run for the loop
--   Broker/Subscriber  decode and the loop of subscriber.cpp: on_typed and on_received, respond for both
--   Broker/Link        the two ends together
--   Broker/Start       the start of server.cpp, and the program from it on (serve)
-- An event carries what the system gives: the bytes of a recv, the descriptor of an accept, the text
-- of an address. Order is kept: actions stand as the code does them, and run goes through any list of
-- events. A copy past a buffer, a NULL that is read and a string without an end are faults. The
-- server keeps copies of a client in `clients` and in each topic, and so does the model.
--
-- The web client (Tema_3). requests.c writes a request into fixed buffers, helpers.c sends it and
-- collects the answer in the buffer of buffer.c.
--   Web/Buffer        buffer.c
--   Web/Requests      requests.c and compute_message of helpers.c
--   Web/Transport     open_connection, send_to_server and receive_from_server of helpers.c; exchange is
--                     their sequence in client.c
--   Web/Strings       get_cookies of helpers.c, and the reading of the access token in client.c (lines
--                     167 to 178)
--   Web/Client        the commands of client.c: request_of is what a command sends, apply_answer what
--                     the answer changes, round both with the request's text, session the loop
--   Web/Program       main of client.c over its connections: turn is a round with the exchange of its
--                     request and what is printed, run the loop, one System of answers for each turn
-- A round of the client takes the input that is left and the server's answer; the loop ends with
-- the exit command or the last answer of the list. At the end of the input a field from calloc is
-- empty, and one from malloc is indeterminate, which is undefined behaviour.
--
-- CString holds the functions of the C library on strings that several parts use: strcmp, strstr,
-- strtok with its saved pointer, atoi, and %d of printf and scanf.
--
-- Integers are natural numbers with the wrap-around of the C types written out where they can wrap;
-- the host is little-endian. A char above 127 is a number above 127; no test depends on its
-- sign.
--
-- Recursion and fuel. get_best_route runs on fuel, the table's length and one more, and
-- get_best_route-Answers shows that it is enough. The carry loop of ip_checksum and the decimal
-- printer recurse on accessibility. The loops over the lines of an answer run on fuel, the length
-- of the answer and one more, and line_loops-end shows that it is enough. The loop of Router/Program
-- runs on fuel, one round for each answer of select and one more, and main-Sound shows that it is
-- enough. All else is structural.
--
-- Parameters. malloc (Malloc), interface addresses, getpid, the addresses at which headers lie, and
-- what the read of the dead local `p` gives (Env), realloc's fresh bytes, the answers of a web server
-- and the JSON text of parson (Json), the results of write and read (Web/Transport), and the texts
-- of floating-point numbers (FloatText), the system calls before the loops of Tema_2 (Sockets,
-- Connection), inet_addr and qsort (Router/Setup), what the calls of get_sock answer (Calls), what
-- select and the read behind it give (Wake), the files and the addresses of the interfaces by their names
-- (Router/Program), and what the system answers over a connection (System).
--
-- Not modelled. basic_extract_json_response of helpers.c, which nothing calls, the vendored JSON library of Tema_3 (parson.c), the Python test harness, what perror
-- prints, and the freeing of memory at the end of a command. malloc is taken to succeed, and the sends of
-- the router and the broker to take all their bytes.
pub mod Base
pub mod CString
pub mod Broker
pub mod Router
pub mod Web
