-- ===== src/Lib.antt =====
-- go-vkit: services that call each other over gRPC, a gate that turns HTTP requests into such calls, and clients of
-- the stores that services use.
--
-- A client (grpcclient/) keeps a pool of connections for each address and takes one for every call; the
-- server (grpcserver/) finds the handler of a call by its path and runs it behind interceptors; the gate
-- (gate/) checks an HTTP request and either calls a service through the client, or a method of its own
-- process, or relays a WebSocket. The three share the request metadata, the codecs, the paths and the errors.
--
--   Prelude           booleans, lists and signed integers over the native numbers, text, maps
--   Strings           the functions of package strings that the code calls, and decimal numbers
--   Metadata          metadata/metadata.go
--   Errors            errorsx/errno.go, errorsx/neterrors/neterrors.go
--   Routes            methodToGRPC of grpcclient/utils.go, ServiceMethod of grpcserver/utils.go
--   Codec             codec/codec.go
--   Client.Nodes      streamsPool, poolConn, removeConn and addConnAfter of grpcclient/pool.go
--   Client.Pool       newPool, getConn, release and Close of grpcclient/pool.go
--   Client.Invoke     Invoke of grpcclient/client.go, InvokeByGate of grpcclient/utils.go
--   Client.Stream     grpcclient/stream.go
--   Client.Registry   GetConnClient and DelConnClient of grpcclient/client.go, grpcclient/options.go
--   Client.Custom     NewClient of grpcclient/client.go
--   Client.Opening    NewStream of grpcclient/client.go, StreamByGate of grpcclient/utils.go
--   Server.Registry   the registration of handlers in grpcserver/grpcserver.go
--   Server.Wrappers   the loop over the interceptors, there and in gate/
--   Server.Headers    what the handler of grpcserver/grpcserver.go makes of the metadata of a call
--   Server.Handler    its choice of a handler, its recover, and the innermost call
--   Server.Process    processRequest, processStream and the handler as a whole
--   Server.Buffers    grpcserver/byte_pool.go
--   Server.Options    grpcserver/grpcoptions.go, NewServer of grpcserver/grpcserver.go
--   Gate.Request      requestPayload of gate/function.go, gate/httprequest.go
--   Gate.Response     gate/httpresponse.go
--   Gate.Front        the checks and the error replies that the handlers of gate/ share
--   Gate.Proxy        gate/grpchandler.go
--   Gate.Native       gate/nativehandler.go
--   Gate.Options      gate/httpoptions.go
--   Gate.Upgrade      Handle and connectGrpcServer of gate/streamhandler.go
--   Gate.Relay        readsAndWrites of gate/streamhandler.go
--   Logger            logger/logger.go
--   Mongo.Sort        sort of mongox/internal.go
--   Mongo.Slices      toSlice of mongox/internal.go, DeleteById and Insert of mongox/mongox.go
--   Mongo.Fields      struct2BsonM of mongox/internal.go
--   Mongo.Cursor      iterate of mongox/internal.go
--   Mongo.Paging      the queries by pages of mongox/mongox.go
--   Mongo.Driver      mongox/mongo.go
--   Mongo.Queries     the other methods of mongox/mongox.go
--   Mongo.Filters     mongox/bsonx/bsonx.go
--   Mongo.Opening     mongox/client.go
--   Mongo.Results     what mongox/mongox.go makes of the driver's results
--   Mysql             mysqlx/mysqlx.go
--   Mysql.Chain       mysqlx/mysql.go, newOnChain of mysqlx/client.go
--   Mysql.Opening     NewClient of mysqlx/client.go
--   Redis             redisx/redisx.go
--   Nats              natsx/natsx.go
--   Minio             miniox/miniox.go
--   Replies           utilsx/error.go
--   Utils             utilsx/file.go, utilsx/uuid.go, utilsx/md5.go, utilsx/bean.go
--   System            a request through gate/grpchandler.go, grpcclient/utils.go and grpcserver/grpcserver.go
--
-- State and operations. A pointer of the connection pool is a number and the nodes are a function of it, so
-- that the pointer writes of removeConn and addConnAfter are done one by one. What a method does between Lock
-- and Unlock is one function on this state, and Client.Pool.Sharing interleaves these functions for any
-- number of callers. The goroutines of the relay are a step relation too. Errors and panics are values: an
-- Option where the code returns an error or panics in one way, and Outcome where a deferred recover can see a
-- panic. An operation is named after its Go function, in lower case, with its helpers before it.
--
-- Bounds and fuel. The walk of getConn has as many rounds as the list has connections and one more, and
-- Client.Pool.Choice shows that it ends within them. The subtractions of the pool stop at 0; the invariant of
-- Client.Pool.Invariant shows that none of them would go below. Codes of errors are computed in int32 and time
-- limits in 64 bits, with wrap-around; other machine integers count things and are taken to be large enough.
-- A status is a natural number. A character is a byte, and the functions on case and titles are those of ASCII.
-- A map is the list of its entries in the order of a visit, which no theorem on it fixes.
--
-- A client of a store is modelled over a record of the calls of its library, which a theorem takes with the laws that
-- the library documents. The clients by address are a step relation: a step is one Load, Lock or Store of a call.
-- Queries by pages compute in int32. A client of MySQL is a pointer to a pointer of the library, as both may be shared.
--
-- System puts the gate, the client and the server together, without interceptors and on one thread: the gate's call is the
-- client's Invoke, and what gRPC hands on in between is a parameter with laws. Where a goroutine of the client panics
-- the program ends; the value that stands for what the gate would get then is arbitrary.
--
-- A write of the logger may stop after a part of its line, and the ticks of mainloop come between its lines. The
-- handler AuthHandler may fail or panic, and is taken to write no reply itself. WaitGroup and the return of
-- readsAndWrites are left out of Gate.Relay, which has the steps of the four goroutines.
--
-- Not modelled: what a parameter stands for (gRPC, reflection, the codecs, net/http, encoding/json, the
-- context, the clock, the file system, the drivers of the stores), what is logged, the registration of codecs in the
-- functions init, the upgrade to a WebSocket, and the example main.go.
mod Prelude
pub mod Strings
pub mod System
pub mod Utils
pub mod Metadata
pub mod Client
pub mod Errors
pub mod Routes
pub mod Codec
pub mod Server
pub mod Gate
pub mod Mongo
pub mod Logger
pub mod Redis
pub mod Nats
pub mod Minio
pub mod Mysql
pub mod Replies
