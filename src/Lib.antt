-- ===== src/Lib.antt =====
-- The CCTV event server of a Raspberry Pi: a TLS server that keeps accounts, a history of traffic
-- events and their images, and the display settings of the camera.
--
-- The parts and how they interact. server/TcpServer reads lines from a client and gives each one to
-- server/CommandHandler, or to server/ImageHandler for UPLOAD and GET_IMAGE. CommandHandler keeps
-- two repositories, db/UserRepository and db/HistoryRepository, over one SQLite connection, and
-- reads and writes two json files in shared memory. ImageHandler stores and sends files below
-- images/, and announces a file's length by util/EndianUtils.
--
-- The files. Below, src/ and include/ are directories of the repository.
--   Db/Model: include/db/model/User.hpp and History.hpp.
--   Db/Manager: src/db/DBManager.cpp and src/db/DBInitializer.cpp. Db/Manager/Class has the members
--     of both classes as records; Server/Listener/Class, Server/Commands/Class and Server/Images have
--     those of TcpServer, CommandHandler and ImageHandler, by which the other parts call them.
--   Db/Users: src/db/UserRepository.cpp. createUser, getUserByEmail, getUserById,
--     updateUserPassword and deleteUser are create_user, get_user_by_email, ...
--   Db/Histories: src/db/HistoryRepository.cpp. createHistory, the four queries and deleteHistory.
--   Db/Users/Repository, Db/Histories/Repository: the classes of include/db/repository/ as records of
--     their methods, with the specification that the methods meet.
--   Server/Auth: handleRegister, handleLogin and handleResetPassword of
--     src/server/CommandHandler.cpp. handle_register splits the payload into words and calls
--     register, which is the rest of the method; the others alike.
--   Server/Auth/Threads: the same requests as clients' threads run them. Step interleaves the threads
--     between any two calls of the repository.
--   Server/Entries, Server/History: handleAddHistory and the four handlers that list the history.
--   Server/Overlay: handleChangeFrame, handleGetFrame and handleGetLog.
--   Server/Commands: `handle`, the dispatch on the first word of a line.
--   Server/Images: src/server/ImageHandler.cpp.
--   Server/Session: handleClientSSL of src/server/TcpServer.cpp, the loop of a client.
--     Its child modules are about a session as a whole: Reading and Pipeline about its lines,
--     Pictures, Framing and RoundTrip about the lines UPLOAD and GET_IMAGE, Keeping about the state,
--     Ends and Returns about how it ends.
--   Server/Soundness: what the handlers keep of the tables and of the camera's settings. The modules
--     called Keeping are about it, one for each part.
--   Server/System: the calls of the operating system and of OpenSSL that the next two make.
--   Server/Listener: the rest of src/server/TcpServer.cpp: setupSocket is setup_socket, one round of
--     the loop in start is accept_round, and end_thread is the end of client_thread_func. Step
--     takes rounds and ends of threads in any order.
--   Server/Startup: src/main.cpp, up to the call of start, which does not return.
--   Endian: src/util/EndianUtils.cpp, for a little-endian host.
--   Exec: the effects: a state, a result, and the faults that no caller catches.
--   Stream: what the code uses of std::istringstream (>> into text, int and size_t, std::getline).
--   Prelude: lists, numbers and texts that the parts share.
--
-- Clients at the same time: Server/Auth/Threads interleaves requests on accounts call by call, and
-- Server/History/Order takes additions to the history in any order, each of which is one call.
--
-- The state. `World` is what a handler can read or change: the database connection, the disk, the
-- time, and what the memory of an uninitialised local variable holds. `Link` adds the connection
-- of a client. A handler takes the state and returns its reply and the new state. A std::string is
-- the list of its bytes, and c_str cuts it at its first zero byte where the code does. An int is a
-- ℤ in the range of 32 bits; a size_t is a ℕ, and additions to it are taken modulo 2 ^ 64.
--
-- Parameters. SQLite, SHA-256, the json library, the file system, floating point, the TLS
-- connection and htonl are not part of the repository. `Env`, `Tls` and `System` list the calls
-- that the code makes of them; Db/Contract, Db/Contract/Limits, Db/Contract/Outcomes,
-- Db/Contract/Columns, Server/Overlay/Contract, Server/Net, Server/Session/Reading,
-- Server/System/Contract and Endian/NetworkOrder state as hypotheses what the code relies on. The
-- contract of SQLite in Db/Contract is for a database that is neither locked nor full, and the ones
-- in Db/Contract/Outcomes and Db/Contract/Columns are for any; the code's branches for a failed
-- call are modelled all the same. Tests/ and Db/Memory instantiate all of them in memory, but for
-- SHA-256 and the floats, which carry no hypothesis.
--
-- Loops and fuel. Db.Histories.fetch takes one unit of fuel for each call of sqlite3_step, and the
-- handlers give one more than the query's limit, which the LIMIT clause makes enough. The upload
-- loop takes one unit for each SSL_read, which reads at least one byte of the file's size, so one
-- more than the size is enough. The sending loop takes one unit for each chunk, and the length of
-- the file and one is enough if the file can be read to its end; if a read fails, the loop goes on
-- for ever and no fuel is enough. Running out is a value of its own, so enough fuel is a theorem.
--
-- In a client's session the fuel bounds the rounds and the bytes of a line. Every round reads at
-- least a line feed, so more fuel than the client sends bytes is enough.
--
-- The disk. A stream's writes may be torn off, std::filesystem's calls may throw, and a path can be
-- one that opens and cannot be read to its end, such as a directory: `Files` in Server/Env has each
-- as a value. A path ends at its first zero byte; the contract in Server/Overlay/Contract compares
-- paths that way. What CHANGE_FRAME reads of a file that fails before its end is not parsed.
--
-- Not modelled. Log output, the test clients and the vendored include/lib/json.hpp. A client's
-- thread touches no socket but its own, so the listener's steps leave its work out. Threads
-- are interleaved for the requests on accounts and for the additions to the history; the other
-- handlers are described as whole calls.
pub mod Prelude
pub mod Exec
pub mod Stream
pub mod Floats
pub mod Endian
pub mod Db
pub mod Server
pub mod Tests
