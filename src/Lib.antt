-- ===== src/Lib.antt =====
-- rdws_us: the service broker, C++ under src/service_broker, the JSON helpers of src/shared/utils, and the
-- way of a reading: the SenML of src/shared/senml, src/services/ingestion_service and
-- src/services/reading_writer_service; with src/services/auth_service, whose tokens the broker checks.
--
-- Services connect to the gateway by TCP or a Unix socket, identify themselves, and are kept in the
-- registry under the capabilities that they offer. A request, from HTTP or from another service, names
-- a capability; the router may map it to another one, the configuration gives the strategy and the
-- timeout, the registry selects a service, and the gateway sends it the request, keeps a slot for it,
-- and hands the response to the thread or the service that waits. Events about all this go through the
-- bus. The HTTP side authenticates a request by an API key or by a token, which auth.login issues.
--
-- A station sends its readings as a SenML pack. The ingestion service parses it, keeps what belongs to
-- the station, publishes it to two queues and answers; with a positive answer it may send the station
-- its configuration. The reading writer takes the messages from the queues into the database.
--
-- Files and sources:
--   Prelude              shared helpers: numbers, lists, tables (std::map), Run (code under a mutex
--                        that is not recursive: it ends or blocks for ever), Checked (checks that
--                        refuse or pass), Text, Floats (the type double)
--   Json                 rapidjson values, src/shared/utils/json_helper.cpp
--   Json/Merge           src/shared/utils/json_merge.cpp
--   Identity             src/service_broker/Services/ServiceIdentity.h, .cpp
--   Registry             src/service_broker/Services/ServiceRegistry.h, .cpp: the members that write;
--                        Queries and Select: those that read, and selectBestService
--   Config               src/service_broker/Config/GatewayConfig.h, .cpp (Defs)
--   Router               src/service_broker/Services/EventRouter.h, .cpp (Codec, Defs, Path)
--   Bus                  src/service_broker/Services/EventBus.h, .cpp (Defs)
--   Gateway              src/service_broker/Services/ServiceGateway.h, .cpp: Types (the state),
--                        Requests (sendRequest, INVOKE), Responses (RESPONSE), Waiting
--                        (waitForResponse, clean-up, status), Connections (framing, IDENTIFY, PING,
--                        closeConnection, the health checker's round); Steps joins the handlers in
--                        a step relation
--   Auth                 src/service_broker/Auth/AuthMiddleware.h, .cpp: Base64 (base64url and
--                        constantTimeEqual), Access (the checks), Identity (injectIdentity, and the actor
--                        helpers of json_helper.cpp); Issue: buildJwt of
--                        src/services/auth_service/AppAuthService.cpp
--   Http                 src/service_broker/HttpGateway.cpp: Request (documentFromRequest)
--   Senml                src/shared/senml: Parse (senml.cpp), Units (conversion.cpp), Trigger
--                        (trigger_config.cpp)
--   Metrics              src/shared/utils/metrics.h, .cpp: record and reset of MetricsTracker
--   Hex                  toHex and fromHex of src/shared/crypto/credential_cipher.cpp
--   Ingestion            src/services/ingestion_service/AppIngestionService.cpp: Caches, Defs (the loop
--                        over a pack), Handlers (handleSenml, configReply, onRequest)
--   Writer               src/services/reading_writer_service/AppReadingWriterService.cpp (Defs);
--                        Arrival joins it with Ingestion
--   Tests                the theorems at concrete inputs
-- Function names are those of the sources, in lower case with underscores; a field keeps its name in
-- the same way. The other children of a module hold proofs about it.
--
-- State is passed explicitly: a member is a function from the state before to its answer and the state
-- after. A member that takes a mutex which its own thread may hold already answers in Run, where
-- blocked is the thread that waits for itself. A handler of the gateway is one step: waitForResponse is
-- two, before and after its wait, so that other steps can come between. What is sent is appended to a
-- list with the descriptor; whether a descriptor takes a message is an argument. Times are natural
-- numbers of nanoseconds and an argument, as are generated ids, the random draw, the JSON writer and
-- whether a file can be written. Files hold the document that was last written. The ingestion service
-- and the writer list what they send or store; how the queues and the database answer is an argument.
-- Tokens are lists of bytes. HMAC, rapidjson's parser and writer, and the time functions of the C
-- library are arguments.
--
-- Bounds: counters of 64 bits wrap (% 2 ^ 64), those of 32 bits too. std::to_string of an integer is
-- cut at twenty digits, which is enough for 64 bits. No other recursion runs on fuel.
--
-- Not modelled: sockets and threads as such, logging, start() with its bridges to persistence, the
-- metrics document, the routes of HttpGateway, the clients, CoAP, the AMQP wrapper, the repositories and
-- the other domain services; rapidjson's parser and writer. Names and strings hold no NUL byte. A latency is below 2^31
-- milliseconds.
pub mod Prelude
pub mod Json
pub mod Identity
pub mod Registry
pub mod Config
pub mod Router
pub mod Bus
pub mod Gateway
pub mod Auth
pub mod Metrics
pub mod Http
pub mod Senml
pub mod Hex
pub mod Ingestion
pub mod Writer
pub mod Tests
