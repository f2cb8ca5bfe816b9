-- ===== src/Lib.antt =====
-- A model of the public-transport protocol: the message format, the TLS framing, the SQLite layer
-- and the central server, with the theorems that show what they do.
--
-- Parts, and how they interact. A client builds a message with MessageFactory and sends it through
-- TLSSocket; the central server's connection thread reads it, processMessage picks a handler, the
-- handler borrows a Database from DatabasePool, runs SQL, gives the Database back, answers, and
-- tells the subscribers.
--
-- - Text, Text.Decimal: std::string as a list of bytes, std::to_string and std::stoi.
-- - StdMap: std::map<std::string, T> as a list of pairs in order of the keys.
-- - Codec: encodeData and decodeData of common/Message.cpp, with their big-endian lengths.
--   Codec.Entries: what decodeData makes of any bytes; Codec.Fields: one length with its text.
-- - Message: class Message of "include /common/Message.h" and common/Message.cpp: typed accessors,
--   header, serialize and deserialize, the stream format, checksum. Message.Crc: the CRC-32.
--   Message.Binary: addBinary and getBinary. Message.Factory: class MessageFactory, one function per
--   create method. Message.Kind: the constants of MessageType.
-- - Wire: send, receive, sendMessage, receiveMessage of common/TLSSocket.cpp and the reading loop of
--   server/CentralServer.cpp.
-- - Platform: what the sources do not define (double, std::hash, the clock, failures of SQLite,
--   delivery), as a parameter of all that uses it.
-- - Database: class Database of common/Database.cpp. Database.Rows: the tables. Database.Users,
--   Database.Groups, Database.Vehicles, Database.Tickets, Database.Prices: one function per method.
--   Database.Pool: Database::initialize and class DatabasePool. Below them: the methods together.
-- - Central: state and steps of server/CentralServer.cpp. Central.Validation: validateURN and the
--   like. Central.Sessions, Central.Registration, Central.Reservation, Central.Purchase,
--   Central.Groups, Central.Admin: the handlers. Central.Dispatch: processMessage and
--   handleClientMessage. Central.Lifecycle: start and stop; the modules below it have the phases of a
--   server. Central.Discovery: the answer to a UDP datagram.
-- - TlsServer: start and stop of class TLSServer, common/TLSServer.cpp.
-- - Client: class UserInterface of client/UserInterface.cpp. Client.Commands: the handlers of the
--   commands. Client.Session: the console loop and the help. Client.Discovery: discoverServer.
--   Text.Split: splitString. Client.Says: what is written to the server, as a sequence of frames;
--   Client.Reserve: a command from the console to the tables of the server.
-- - Central.Triple, Central.Pooling, Central.World, Central.Quiet, Central.Answers: statements about
--   handlers, on the free connections, on the tables with all that is sent, on the tables alone, and
--   on the number of answers. Database.Users.Refinement: the users as a partial map.
--   Database.Vehicles.Bounds: the free seats.
-- - Logger: class Logger of common/Logger.cpp; the modules below it: the lines of a sequence of calls.
-- - Tests and its modules: concrete platforms, servers and messages.
--
-- How state and errors are modelled. A method of Database is a function from the object, with the
-- tables of the file, to a result and the object after it. An SQL statement is a function on the
-- tables with its constraints written out; what SQLite itself may refuse (busy, disk, I/O) is the
-- platform's choice at every call, and a failed call leaves the tables as they were. A column of
-- doubles holds what it reads as, which is 0.0 for a NaN. Rows that a SELECT without ORDER BY
-- meets stand in the order of insertion. Texts are bound up to their first NUL, as
-- sqlite3_bind_text with c_str() does. Foreign keys count on a connection whose pragma succeeded.
-- A handler is a function from the server to a result and the server after it; the result is a
-- value, an exception of std::stoi that no handler catches, or a wait for a connection that never
-- ends. Readings of the clock, calls of SQLite and writes to clients are numbered by one counter,
-- so that the platform may answer each differently. Handlers run one after the other; where two of
-- them meet, the interleaving is written out as a sequence of their steps.
--
-- The console client is a function on its members, the lines on the screen and a socket whose
-- incoming bytes are known in advance; a line of input ends with a newline.
--
-- Bounds and fuel. Lengths and checksums are reduced modulo 2^32 and header fields modulo their
-- width, as htonl and htons do. decode_data runs on as many rounds as there are bytes,
-- and an entry takes at least eight. The reading loop runs on as many rounds
-- as bytes are left; every frame takes at least 24. std::to_string prints at most 20 digits, which
-- every 64-bit number has at most. The counters of the id generators do not wrap.
--
-- A call of start or stop of the server is a function on the members that it touches; what
-- Boost.Asio answers, and whether the socket can be set up, is an argument. Threads can always be
-- had, and the loops of the background tasks end once they see the flag.
--
-- Not modelled: the client programs but the console, Boost.Asio's handshake and acceptors, the way
-- of a UDP datagram, the calls of the logger by the other parts, ServerConfig, which nothing
-- reads, the sleeps of the background loops, getDouble and addDouble, and the printing of
-- messages; the manifest gives the reasons part by part.
pub mod Prelude
pub mod Text
pub mod Result
pub mod StdMap
pub mod Codec
pub mod Message
pub mod Logger
pub mod TlsServer
pub mod Wire
pub mod Platform
pub mod Database
pub mod Central
pub mod Client
pub mod Tests
