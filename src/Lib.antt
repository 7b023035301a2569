-- ===== src/Lib.antt =====
-- mcp-from-scratch: a server of the Model Context Protocol and its clients, written in Go.
--
-- The program. internal/protocol has the messages: requests and responses with their identifiers,
-- errors, the negotiation of extensions, and the states of a task. internal/mcpserver is the server.
-- Its Handle answers one request: it checks the metadata that the request carries, then dispatches
-- on the method to the catalogs (tools, resources, prompts), to a tool, or to the store of tasks.
-- Publishing a change offers a message to the subscriptions that asked for it. Transports call
-- Handle; in front of the stdio transport the historical lifecycle is translated, and in front of
-- the HTTP handler the OAuth resource server authenticates the caller and sets the principal under
-- which the store keeps the caller's tasks. A running request sends notifications, progress and logs
-- through the runtime in its context. internal/host has the clients: they detect which lifecycle a
-- server speaks, send requests that the server's transports check, walk along the pages of a list,
-- read streams of events, follow tasks, and get tokens for a protected server by OAuth.
--
-- The files:
--   Base and below      native numbers, lists, maps as association lists, results, decimal numbers
--                       (strconv), regular expressions, texts (strings), base64.RawURLEncoding;
--                       Base.Actions has actions on a state that may fail, with their rules
--   Json, Json.Decode   JSON values and what json.Unmarshal makes of them for the struct members
--                       that the program declares
--   Protocol            internal/protocol/types.go, extensions.go, tasks.go
--   Context, Envelope, Metadata
--                       principal.go, the results and validateRequestMetadata of server.go, and what
--                       tasks.go reads from the metadata, all of internal/mcpserver
--   Environment         what the server calls and this library takes as given
--   Tasks               MemoryTaskRepository of internal/mcpserver/tasks.go: create, get, update,
--                       cancel, lookup_locked, expired are its methods of the same names
--   Subscriptions       internal/mcpserver/subscriptions.go
--   Pages, Catalogs     internal/mcpserver/catalogs.go: the pages of the lists; resources and prompts
--   Tools               internal/mcpserver/schema.go and the tool calls of server.go
--   Confirmation        internal/mcpserver/mrtr.go
--   Server              Server of internal/mcpserver/server.go: its set-up; Server.Replies the results,
--                       Server.TaskCalls the methods tasks/get, tasks/update, tasks/cancel and
--                       callDeferredEchoTask, Server.Handle the dispatch, Server.Listen subscribe
--   Legacy              internal/mcpserver/legacy.go
--   Oauth               internal/mcpserver/oauth.go
--   Http                the decisions of serveHTTP of internal/mcpserver/http.go
--   Stdio               the admission of requests in serveStdio of internal/mcpserver/stdio.go, as
--                       steps of its goroutines
--   Runtime             internal/mcpserver/runtime.go
--   Observability       internal/mcpserver/observability.go
--   Host.Listing        listAllTools of internal/host/demo.go
--   Host.Events         readSSEData of internal/host/subscriptions.go
--   Host.Client         the requests and answers of internal/host/demo.go, and extensions.go;
--                       Host.Client.Sending what net/http makes of the header values
--   Host.Discovery, Host.Compatibility
--                       internal/host/compatibility.go: what an answer says, and the detection
--   Host.Tasks          the task calls of internal/host/tasks.go
--   Host.Streams        the subscriptions of internal/host/tasks.go and subscriptions.go
--   Host.Oauth          internal/host/oauth.go: the store, and below it Endpoint (the checks of URLs
--                       and addresses), Challenge (WWW-Authenticate), Discovery, Registration, Flow
--                       (authorize and exchangeCode) and Requests (Do)
--   Tests               the theorems applied to concrete inputs
--
-- How the code is modelled. State is passed explicitly: a method takes the state, the time of the
-- clock and the random bytes that it reads, and returns its result and the state as it leaves it. A
-- method that holds a mutex is one step. Errors are values. A Go map is an association list that is
-- read through lookup. Numbers are natural numbers; where the program multiplies a lifetime in
-- 64-bit arithmetic the product is taken modulo 2^64. Times are nanoseconds.
--
-- The client of OAuth is an action on its store, the list of the requests that it has sent, and the
-- world behind the network, in which nothing else runs: one request at a time is done, and all flows
-- and tokens of the store are its own. A stream is the text that is read from it.
--
-- Bounds and fuel. The walk of the client is recursion on fuel; one request for each item and one
-- more is enough against the server's own pages. wait_for_http_task is recursion on fuel, one step
-- for each poll; one step for each poll up to the first that finds the task over is enough.
-- decode_sse_response is recursion on fuel too; http_answer gives it the number of lines of the
-- input and one more, since a round takes a line. Offsets are below 2^63, as a Go int is. The expiry of a token is
-- computed modulo 2^64. All other functions are structural recursion.
--
-- Not modelled. What the transports of stdio.go and http.go read and write besides, their shutdown
-- and the streams behind a first message; of internal/host the model adapter (model.go), the set-up
-- of HTTP requests that open a stream, the refresh of the tools after a change, and the demonstrations
-- that print a transcript; and cmd: they are input and output around the parts above. Two calls of one
-- OAuth client at a time are not modelled. Parameters: the JSON Schema package, HMAC-SHA-256,
-- the text of a time, the size of a JSON text, the validator of tokens, url.Parse, net.ParseIP,
-- strconv.Unquote, SHA-256, mime.ParseMediaType, the operations on floating-point numbers, and the
-- parser of JSON texts where a stream is read. The parser is not modelled otherwise, so that
-- repeated keys and the case of keys do not occur, and a null in an array of texts counts as the
-- empty text. An IPv6 address that embeds an IPv4 address is given as the latter, as the program's
-- library treats it.
pub mod Base
pub mod Json
pub mod Protocol
pub mod Context
pub mod Envelope
pub mod Tasks
pub mod Metadata
pub mod Subscriptions
pub mod Environment
pub mod Pages
pub mod Catalogs
pub mod Host
pub mod Tools
pub mod Confirmation
pub mod Server
pub mod Legacy
pub mod Oauth
pub mod Http
pub mod Stdio
pub mod Runtime
pub mod Observability
pub mod Tests
