-- ===== src/Lib.antt =====
-- A verification of the Go code of hackfs-mdc (backend, frontend/go-api.go): nodes that store content
-- for other nodes over libp2p, with Textile behind them and an HTTP proxy before them.
--
-- A requester sends an upload, a download or a JSON request to a server as a signed message. The
-- server's handler reads the stream, checks the message, processes the request with Textile and
-- sends a signed response. The requester's handler checks the response, finds the request that
-- waits for it and puts the response on a channel, where the HTTP route that sent the request waits.
--
-- The parts, their code and their files:
--   Go, Base        what Go itself has: panics, effects, results, strings and integers
--   Services        the libraries and the world outside, as one record of parameters
--   Messages        backend/pkg/libp2pnode/pb/p2p.proto; Messages.Envelope is what signing, checking
--                   and sending need of a message
--   Common          backend/pkg/common: Errorf, GetTraceStr, GetMillisecond
--   Node            backend/pkg/libp2pnode/node.go: authenticateMessage, verifyData, signProtoMessage,
--                   NewMessageData, sendProtoMessage
--   Textile         backend/pkg/textilehelper/textilehelper.go: buckets, records and queries;
--                   Textile.Promises says what the code relies on
--   Textile.Setup   Setup, SetupTesting and what they call, with hubhelper.go; Textile.Hub is what
--                   they are given
--   Schema          backend/pkg/models/content.go
--   Process         programs that may end early: FatalOnError and LoadConfig of backend/pkg/common
--   Preview         backend/pkg/libp2pnode/preview.go, backend/pkg/tools/imagepreview and videopreview
--   Content         the storing of an upload and the look-up of a record, in backend/pkg/libp2pnode
--                   (processUploadRequest, processJsonRequestUpload,
--                   GetContentDataRecordWithDownloadData)
--   Serve           the handlers of requests, which upload.go, download.go and jsonapi.go each write
--                   out, as one function of what differs
--   Upload, Download, Json
--                   the server's side of backend/pkg/libp2pnode/upload.go, download.go, jsonapi.go
--   Client          the requester's side of the same three files: UploadTo, onUploadResponse and
--                   the like, with the map of requests and the channel
--   Host            NewNode of backend/pkg/libp2pnode/node.go with the stream handlers that the
--                   protocols set: a node that is given one stream after another
--   HttpProxy       backend/pkg/httpproxy/httpproxy.go: the router, its routes and their wait
--   Programs        backend/cmd/server and backend/cmd/proxyclient: flags, main, the client mode
--   Frontend        frontend/go-api.go
--   Examples        a small concrete world, and the theorems at concrete inputs
--
-- State is passed explicitly: a function of the code is a computation over the world of `Services`,
-- which may panic, and a requester's protocol object is an `Exchange`. A function of the model has
-- the name of the Go function, in lower case with underscores. A long function of the code is several
-- here, each the rest of the one before it. Integers of 64 and 32 bits are not bounded: the code
-- only compares, divides and copies them, and adds a minute to the time. No function needs fuel: the loops are over lists.
--
-- A handler of a response and a route run at the same time as others. The order of their steps is
-- made explicit: `Client.Race` takes the responses that arrive before and after a request is put
-- into the map, and a route is a function up to its wait and one of what its channel then holds.
--
-- Not modelled: logging, and what is not Go: the frontend's pages, the contracts, the enclave.
-- Memory that two goroutines share without a lock is not modelled, but for the error of
-- GetGifFromBytes, of which the world says who writes it last.
--
-- What is not in the repository is a parameter: Services, and Textile.Hub, Programs.Network and
-- Frontend.Ipfs for the programs. What a theorem assumes of it is a record of its own:
-- Textile.Promises.Promises of Textile, Node.Signing.HostKeys of the host's keys, Node.Working.Working
-- of the key and the ULIDs, Content.Clock.Clock of the clock. Examples has values of all of them.
pub mod Base
pub mod Go
pub mod Messages
pub mod Common
pub mod Services
pub mod Process
pub mod Schema
pub mod Node
pub mod Textile
pub mod Preview
pub mod Serve
pub mod Content
pub mod Upload
pub mod Download
pub mod Json
pub mod Examples
pub mod Client
pub mod Host
pub mod HttpProxy
pub mod Programs
pub mod Frontend
