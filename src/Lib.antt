-- ===== src/Lib.antt =====
-- A verification library for the STUN code under jni/stunserver/all: the message builder and
-- reader, the containers below them, the client that finds out how a NAT behaves, and the server
-- that answers it.
--
-- The program. A client builds a binding request with `CStunMessageBuilder`, which writes to a
-- `CDataStream` over a `CBuffer`. It sends it with a UDP socket and gives the answer to
-- `CStunMessageReader`, which parses it from a stream of its own and enters the attributes in a
-- `FastHash`. `CStunClientLogic` runs a list of tests: the binding test, and a pair each for the
-- mapping and the filtering behaviour. It hands out their requests, sends them again after a
-- timeout, takes in the responses and keeps the results. A server has up to four sockets, for two
-- IP addresses and two ports. `CStunRequestHandler` is given a request that was parsed, asks an
-- authentication provider if there is one, and writes a success or an error response to the
-- caller's buffer, with the socket and the address to send it from and to.
--
-- The files, with the code that they model (paths below jni/stunserver):
--   Base        numbers, Booleans, lists and lemmas on them, shared by all
--   Hresult     all/hresult.h, all/chkmacros.h: status codes as a data type; a call that changes an
--               object is a function that returns the status and the object (`Run`), and a chain
--               of `Chk` is a chain of `▷`
--   Word, Bits  integers of 8, 16 and 32 bits with their wrap-around, their bytes in memory,
--               `htons` and `htonl`, exclusive or
--   StunTypes   all/stuntypes.h
--   Stream      all/buffer.cpp, all/datastream.cpp; Stream/Laws inside the array, Stream/Growth
--               past its end, Stream/Fixed in an array that may not grow
--   FastHash    all/fasthash.h: nodes, links and index are arrays of positions; Chains and Laws
--               hold the invariant, Refine and History the view as a list of pairs
--   Address     all/socketaddress.cpp: the bytes of the address, in network order; Masked on
--               the XOR mapping
--   Crypto      what is called of OpenSSL and of Boost's CRC, as a record of functions
--   Builder     all/stunbuilder.cpp; Auth its fingerprint and integrity attributes; TransactionIds
--               and TypeField on what it writes, Emit, Message, Addresses, Errors and Drafts on the
--               bytes that its calls add to a message, Endings, Signing
--               and Fingerprint on the last attribute
--   Reader      all/stunreader.cpp: `CStunMessageReader`; Get the getters, with all/stunutils.cpp;
--               Auth the fingerprint and integrity checks; Frames and Safety on the loop of
--               `ReadBody`, Header on `ReadHeader`, States and Feed on `AddBytes`, Attributes on
--               what the getters find; Loop, Whole, Values, Found, RoundTrip and Fingerprints on the
--               bytes of a whole message
--   Client      all/stunclienttests.cpp, all/stunclientlogic.h: configuration, results and tests;
--               Logic all/stunclientlogic.cpp; Verdicts, Progress, Responses and Requests on the
--               runs
--   Server      Roles all/socketrole.h and the address set; Auth all/stunauth.h; Handler
--               all/messagehandler.cpp. Drafts, Responses, Errors and Understood on the messages
--               that it builds; Expected on what they ought to have, by the
--               sockets and the request; Rules, Sockets, Access, Ready, Stages, Answers,
--               Binding and Open on a request's way through the handler
--   Tests       runs on small inputs, and the theorems at concrete inputs
--
-- The types have the source's names without the prefix `C` or `Stun`, the operations the names of
-- the methods in lower case. An object that a method changes is an argument and part of the result.
-- A pointer that may be NULL is an `Option`, an index of -1 is `none`. A switch, an early return
-- and a chain of `Chk` are the tests of the source in the source's order.
--
-- Bounds. `size_t` has 32 bits, as in the build for armeabi, and the machine is little-endian. The
-- theorems on streams speak of arrays of less than 2 ^ 31 bytes and, where the array grows, of writes
-- that end below 2 ^ 30, so that doubling the size in `Grow` does not wrap.
--
-- Fuel. The loop of `ReadBody` gets one unit more than the stream has bytes; each round that
-- succeeds consumes four at least. The loop of `GetNextMessage` gets two units for each test and
-- two more: a test is either completed in the round or left behind, and a completed one is left
-- behind in the next. The loops over hash chains and padding are
-- structural.
--
-- Parameters. `new_bytes` is the allocation by `new`, the array's content included, and gives
-- `none` where the source tests for NULL; `Supplies` says that it gives arrays of the size asked
-- for. `rand` is the C library's random numbers after `srand`, and `fresh` what an uninitialised
-- variable holds. The time is an argument. The authentication provider is a function, and so are
-- the hashes and the checksum of Crypto, of which nothing is assumed but, in two theorems, the
-- size of the result: 20 bytes for the HMAC, 32 bits for the checksum.
--
-- Not modelled: sockets, polling, name resolution and network interfaces, which are system calls;
-- the command line and its helpers; logging and printing; reference counts, since the models are
-- values; the tables of `FastHashDynamic`; the folder networkutils, which holds copies; boost,
-- openssl and sys, which are other projects; and the Java application. The theorems do not speak of
-- responses with an integrity attribute of their own.
pub mod Base
pub mod Hresult
pub mod Word
pub mod Bits
pub mod StunTypes
pub mod Stream
pub mod FastHash
pub mod Address
pub mod Crypto
pub mod Builder
pub mod Reader
pub mod Client
pub mod Server
pub mod Tests
