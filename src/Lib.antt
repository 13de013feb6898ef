-- ===== src/Lib.antt =====
-- ReMoLON gives users graphical sessions on remote visualization nodes: a front end keeps the users,
-- the nodes and the sessions; each node starts and ends the streaming processes; they talk in packets
-- over sockets. This library models that code and proves what its parts promise.
--
-- The parts, and where they are:
--   Common               lists, options, association lists, numbers in base 10, the outcome of a call
--   Util/ByteBuffer      ReMoLON_Util/src/ByteBuffer.cpp: memory, two positions, a size
--   Util/Packet          ReMoLON_Util/src/Packet.cpp: reads and writes of fields, writePacket
--   Util/PacketHandler   ReMoLON_Util/src/PacketHandler.cpp: handlePacket and the table of factories
--   Util/Config          ReMoLON_Util/src/Config.cpp: configuration files
--   Util/Connection      ReMoLON_Util/src/Connection.cpp: the queue of packets and the poll mask
--   Util/ThreadPool      ReMoLON_Util/ThreadPool.h: the queue of tasks and the workers
--   Util/SelectorThread  ReMoLON_Util/src/SelectorThread.cpp: the set of connections, reading, writing
--                        and the rounds of the select loop
--   Util/Client          ReMoLON_Util/src/Client.cpp: the loops that receive, send and execute
--   Util/Server          ReMoLON_Util/src/Server.cpp: the accept loop and the selector thread of a new
--                        connection
--   FrontEnd             ReMoLON_FrontEnd/src. Packets, NodeInfo and Answers: the packets, what reads
--                        them and what they do. User and UserManager: who is logged in. VisualizationNode
--                        and NodeManager: the slots of the nodes. SessionTracker: the sessions; its
--                        Threads are creations by several threads. HttpActions, XmlBuilder and
--                        RequestManager: the requests of web clients. Service: all of these together.
--                        Startup: SessionManagerServer.cpp, the server that the nodes connect to
--   Node                 ReMoLON/src. Packets, SessionManager with StreamingSession; Setup: Node.cpp;
--                        Launch: tryLaunchSession, with ReMoLON_xinitrc_writter/src/main.cpp
--   Protocol             what one side writes against what the other side reads, the start of a node
--                        with ReMoLON/src/main.cpp, and a session from the front end to the node and back
--   Tests                the theorems at concrete inputs
--
-- How they interact: a web client's request goes through RequestManager to a handler, which asks
-- UserManager who is at the address and calls SessionTracker. The tracker reserves a slot in
-- VisualizationNodeManager and queues a packet on the node's Connection; the selector writes it, the
-- node's Client reads it and runs it on SessionManager, which launches the process and queues an answer.
-- The front end's selector reads the answer, a thread of the pool runs it, and it sets the status of
-- the session. A node that joins reports its ports, and the selector enters them while it reads.
--
-- A C++ call is a function from the state to an outcome: a result with the new state, an exception
-- with the state at the throw, or a fault, which is undefined behaviour, such as a memcpy on ranges
-- that overlap. Bytes and machine integers
-- are natural numbers, with the wrap-around written out: size_t at 2 ^ 64, int at 2 ^ 32, short at
-- 2 ^ 16. A signed number is its bit pattern. Strings are lists of character codes. An unordered map is
-- an association list, whose order is that of iteration. A mutex makes a method one step. The
-- interleavings that are modelled are those of the calls of a component, in any order, of the pool's
-- submitting threads and workers (ThreadPool/Fifo), and of creations of sessions by several threads,
-- which run between the choice of a node, the reservation and the entry (SessionTracker/Threads). Two
-- threads inside one container at the same moment, which the code does not rule out everywhere, are not
-- modelled. What memory holds before it is written is an argument (the `junk` of a buffer, the counters
-- of a new node).
--
-- Fuel: the search for a slot in SessionTracker runs on fuel, since its loop has no bound; the theorems
-- say when one round is enough and when no number of rounds is. The sequences of calls in
-- SessionTracker/Calls give it one round, which is enough where every node counts its slots. The loops
-- of getPropertyList, of the selector's write and of the client's sending thread have fuel from the
-- length of the text and of the queue, which the theorems show to be enough, and the digits of a number
-- from the number itself.
--
-- Parameters: what PAM and getpwnam answer (System in UserManager, Homes in Launch), what sudo runs,
-- what poll, receiveBytes and acceptConnection give, the socket that a client opens, whether a server
-- can bind its socket, and the form of an HTTP request. Of Poco's request a client address, a URI and a
-- form are kept, of its response a status, a type and a body; without a body nothing has been sent.
--
-- Not modelled: Poco's sockets, TLS contexts and poll sets, how threads are started and joined, the
-- clock, the start of the web server, the streaming processes themselves, and the log output. Whether
-- the process of a session can be launched is an argument of the session manager.
pub mod Common
pub mod Util
pub mod FrontEnd
pub mod Node
pub mod Protocol
pub mod Tests
