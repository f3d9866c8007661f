-- ===== src/Lib.antt =====
-- The verification library of tcpTest: length-prefixed frames over TCP, the demo client and server
-- that exchange them, and the reusable connection classes beside them.
--
-- Parts, and the files that model them:
--   Common            shared names; lists and std::map over native numbers; the bit laws of a word
--   Frame             include/frame.h, struct Frame (serialize, deserialize, checksum, parseHeader)
--   Parser            include/frame.h, class FrameParser (processData), and the step every reader of a
--                     socket makes with it: append to a buffer, parse, erase what was consumed
--   Handler           include/frame_handler.h, class FrameHandler
--   Reorder           the per-stream queue of server.cpp and client.cpp, over an ordered map
--   StreamManager     server.cpp, class StreamManager
--   DemoServer        server.cpp, class Server; its child Startup has start and
--                     acceptConnections, Serving a connection as the steps of its two threads
--   DemoClient        client.cpp, class Client; its child Sessions has connect and main, Stopping stop
--                     as the steps of three threads, Main the threads of main with the writer, and
--                     Conversation and Main join it with DemoServer
--   TcpClient         include/tcp_client.h, class TcpClient
--   ClientHandler     include/tcp_server.h, class TcpServer::ClientHandler
--   TcpServer         include/tcp_server.h, class TcpServer; its child Accepting has acceptLoop, Processor
--                     a StreamProcessor as the steps of its owner and its worker
--   TcpConnection     include/tcp_connection.h, class TcpConnection; its child Options joins it with TcpServer
--   RpcServer         src/rpc_server.cpp, class rpcServer; its child RoundTrip joins it with TcpClient
--   RpcClient         src/rpc_client.cpp, class RpcClient, over TcpClient and the answers of RpcServer;
--                     its child Threads has its threads, the server and the reader as interleaved steps
--   RpcProvider       include/rpc_provider.hpp, class RpcProvider and split
--   Http2Server       src/http_server.cpp: the callbacks for nghttp2, and the loops over connections;
--                     its child Session has the set-up of a session
--   Samples           frames for the tests; every part keeps its tests in a child module Tests
--
-- How the code is read. A byte is a number below 256, a uint32_t a number below 2 ^ 32 with its
-- wrap-around written out, std::map a list of entries with rising keys, a queue or a vector a list.
-- A call of recv is the list of bytes that it returns, a callback an entry of a list of calls. The
-- static flag Frame::enable_checksum and members that the code leaves uninitialised are arguments.
-- Methods that hold a mutex for their whole body are single steps. Logging is left out. What send
-- returns is a list of results, what the other system calls return an argument; where the code does
-- not look at the result of send (server.cpp, client.cpp), send is taken to accept all of the data. A
-- std::thread is whether it is joinable, a promise a number with the value that it was set to; where
-- threads interleave, a step is one critical section or one system call.
--
-- Bounds and fuel: processData and the inner loop of Server::handleRead take at least sixteen bytes in
-- a round, so the length of the buffer bounds their rounds; the theorems about them hold on every
-- buffer and say where they end. The loop of processIncomingData counts its own rounds.
--
-- A run of a registered function is its result and the milliseconds that it takes. What is used of
-- nlohmann::json is a record, an argument of the functions of RpcProvider.
--
-- Not modelled: include/json.hpp (a copy of nlohmann/json); nghttp2, whose results and calls are
-- arguments; the readable type names of rpc_provider.hpp; pauses and logging.
pub mod Common
pub mod Frame
pub mod Parser
pub mod DemoClient
pub mod Samples
pub mod Handler
pub mod Reorder
pub mod StreamManager
pub mod TcpClient
pub mod ClientHandler
pub mod TcpServer
pub mod RpcServer
pub mod RpcProvider
pub mod Http2Server
pub mod RpcClient
pub mod TcpConnection
pub mod DemoServer
