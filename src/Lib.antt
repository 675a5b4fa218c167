-- ===== src/Lib.antt =====
-- cjet, a daemon that speaks Jet: peers own states and methods, other peers fetch, set and call them.
--
-- The peers talk JSON-RPC over sockets. A message is parsed by cJSON, dispatched by src/parse.c to the
-- handlers of src/element.c, src/fetch.c, src/router.c, src/config.c, src/info.c and
-- src/authenticate.c, and answered on the same connection. An element (a state with a value, a method
-- without one) belongs to one peer. A fetch belongs to a peer too, and stands in the fetcher table of
-- every element that it matches and that its peer may see; a change of the element is told to the
-- fetches in its table. A set or call goes to the owner of the element under an id that the router
-- makes, and the answer comes back under the id of the request. User groups limit who sees, sets and
-- calls. When a peer goes, its routed requests, fetches and elements go before it.
--
-- The modules, and the code that each is about:
--   Base           lists, tests, C strings and bit operations that the others share
--   Utf8           src/utf8_checker.c, byte by byte. Utf8/Scalar has the encoding of RFC 3629 as a function,
--                  Utf8/Steps, Utf8/Accepts and Utf8/Correct the proofs,
--                  Utf8/Chunks texts in pieces, Utf8/Words the checkers of whole words
--   Json           the nodes of src/json/cJSON.h as data, and the record of parameters
--   Groups         src/groups.c; Groups/Bits and Groups/Names on what the bits mean
--   Response       src/response.c
--   State          src/peer.h, src/element.h, src/fetch.h, src/router.h and src/table.c: the whole state,
--                  `World`
--   Request        src/request.h, src/timer.c and the checks of parameters: `Checked`
--   Fetch          src/fetch.c; Fetch/Matcher builds and runs matchers, Fetch/Requests has the requests
--   Element        src/element.c but set_or_call
--   Router         src/router.c; Router/SetOrCall has set_or_call of src/element.c, Router/Ids
--                  is about the routed ids
--   Peer           src/peer.c; Authenticate: src/authenticate.c and src/posix/auth_file.c
--   Rpc            src/parse.c, src/config.c, src/info.c and read_msg of src/socket_peer.c
--   Websocket      frames of src/websocket.c: Websocket/Mask has unmask_payload, Websocket/Frame the callbacks
--                  that read a frame and send_frame, Websocket/Handle has ws_handle_frame; Websocket/RoundTrip
--                  and Websocket/Delivery have proofs. Websocket/Upgrade has the header lines of the
--                  upgrade and its answer, Websocket/Extensions and Websocket/Parameters the negotiation
--                  of permessage-deflate; Websocket/Upgrade/Headers, Websocket/Upgrade/Protocols,
--                  Websocket/Extensions/Offers and Websocket/Extensions/Fits have proofs
--   Alloc          src/alloc.c: the heap and its limit; Alloc/Accounts has its invariant
--   Http           src/http_server.c and src/http_connection.c: the start line of a request. The HTTP parser is
--                  a parameter, of which Http/StartLine states what is relied on
--   HashTable      src/hashtable.h with texts as keys. HashTable/Words and HashTable/Places have bits and
--                  positions, HashTable/Search the loop over marked slots, HashTable/Contents the
--                  invariant, HashTable/Moves and HashTable/Closer the swaps of find_closer_entry,
--                  HashTable/Edits, HashTable/Slots and HashTable/Writes the writes, HashTable/Outcomes
--                  put, HashTable/Removal remove, HashTable/Refines the association list
--   Base64         src/base64.c; Base64/Indices and Base64/Decode have proofs
--   BufferedSocket src/buffered_socket.c, what it writes; BufferedSocket/Copying and BufferedSocket/Order have
--                  proofs
--   SocketReader   src/buffered_socket.c, what it reads; SocketReader/Taking and SocketReader/Stream have
--                  proofs
--   SocketPeer     src/socket_peer.c: messages on a connection; SocketPeer/Framing has proofs
--   Live           which fetches the fetcher tables hold, through every operation; Live/Reach has the
--                  daemon as a step relation
--   Examples       a concrete platform and the runs of the properties
--
-- How the C code is read. A handler is a function from the `World` to a response and the new `World`;
-- a chain of checks is a `do` block in `Checked`, whose `reply` is the early return. Pointers to peers
-- and fetches are addresses, a pointer to an element is its owner and its path. What the outside
-- decides, each allocation, send, start or stop of a timer, is the next of `Io.outcomes`; the
-- allocations of one message or one node tree are one outcome. Messages that were handed over are
-- recorded in `Io.sent`. The digest of sha1.c and the result of the write are parameters of the
-- upgrade, whose realloc always succeeds. Calls of cJSON, of crypt, of printf for pointers and of
-- doubles, and the values of generated/cjet_config.h are the fields of `Platform`. In the daemon the
-- hash tables are association lists, which HashTable/Refines justifies.
-- The bytes that lie behind a text in the read buffer are arbitrary. A call of a callback that is NULL ends
-- the model. Numbers of a fixed width are reduced where the code can wrap (the uuid of requests, table sizes).
--
-- Bounds and fuel. Loops run over lists by recursion. The digits of `%x` are made on fuel 8, which is
-- enough for 32 bits, since 16 ^ 8 is 2 ^ 32.
--
-- The loops of the hash table take 32 rounds, the bits of `hop_info`, for a search, and half the size of
-- the table for an insertion, since each swap brings the free slot nearer.
--
-- The reader takes fuel for one system call of each byte that is wanted, and for one callback of each byte.
--
-- Reading one frame takes at most 5 reads: two bytes, a longer length, a mask and the payload.
--
-- Not modelled: the checker of src/utf8_checker.c that aligns its words, the
-- compression of WebSocket frames by zlib, websocket_read_header_line, websocket_close,
-- src/websocket_peer.c, the event loop, the reading and writing of the
-- password file, logging, and the libraries that the tree has copies of (cJSON, http-parser, sha1, zlib).
pub mod Base
pub mod Utf8
pub mod Base64
pub mod HashTable
pub mod BufferedSocket
pub mod SocketReader
pub mod Json
pub mod Groups
pub mod Response
pub mod State
pub mod Fetch
pub mod Request
pub mod Element
pub mod Router
pub mod Peer
pub mod Authenticate
pub mod Rpc
pub mod SocketPeer
pub mod Http
pub mod Alloc
pub mod Live
pub mod Websocket
pub mod Examples
