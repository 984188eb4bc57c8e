-- ===== src/Lib.antt =====
-- The Spike broker, in its versions 1 and 2: services that answer requests, publish and monitor
-- events through a message broker, and an HTTP and a WebSocket side for clients.
--
-- The parts, and the file that models each. Paths are from the repository's root.
--   Prelude    the library's names, lists and Go maps over the native numbers, and decimals.
--   Text       what the broker uses of Go's package strings, over lists of bytes.
--   Go         a Go call as a function on a state, which ends with a value or a panic.
--   Rids       v2/pkg/rids: method.go is Rids/Method (newMethod is `new_method`, Get to Event are
--              `make_verb`, Internal is `make_internal`), pattern.go is Rids/Pattern (EndpointName
--              is `endpoint_name`, EndpointNameSpecific is `endpoint_name_specific`), base.go and
--              spike.go are Rids/Base.
--   Broker     v2/pkg/broker: error.go, success.go and traceable.go are Broker/Message; call.go,
--              callbase.go, callv1.go and access.go are Broker/Call, and NewCallFromV1 is
--              Broker/CallV1; rawdata.go is Broker/RawData; specific-provider-base.go is
--              Broker/Provider, where `Specific` is the interface SpecificProvider.
--   Api        v2/pkg/spike: request-handler.go is Api/Request (handleRequest is `handle_request`),
--              validateMonitor and validatePublish of api-service-impl.go are Api/Events, and
--              Setup, StartService and Stop are Api/Service (`setup`, `start_service`, `stop`).
--   Socket     v2/pkg/spike/socket: utils.go is Socket/Endpoint (PatternFromEndpoint), message.go
--              and connection.go are Socket/Message, the handlers of the messages are
--              Socket/Handlers, request-handler.go is Socket/Event, and the loop of ws.go is
--              Socket/Loop, over the list of what `ReadJSON` returns.
--   Http       v2/pkg/spike/http-server.go: httpHandler is `http_handler`, and httpSetup
--              Http/Routes.
--   Nats       v2/pkg/broker/providers/nats/provider.go: processResponse and getTimeout are
--              Nats/Response, the ring of connections is Nats/Ring, the subject of a subscription
--              Nats/Subject, and NewNatsProvider to Close are Nats/Provider.
--   TestProvider   v2/pkg/broker/providers/testProvider: call.go, access.go and the mocks of
--              test-provider.go (requestMocked is `request_mocked`).
--   TestService    v2/pkg/spike: api-test-service-impl.go (TestAccess is `test_access`) and
--              test-request-handler.go (handleAccessForTest is `handle_access_for_test`);
--              Setup and StartService are TestService/Setup, and TestRequestOrPublishBurst is
--              TestService/Burst, whose goroutines are a system of steps.
--   V1         version 1. pkg/rids/base.go and route.go are V1/Rids, the routes that the first
--              registers V1/Routes, and its EndpointHTTP V1/Url; pkg/service/request/request.go is
--              V1/Request and V1/Search; of pkg/service/providers/nats/nats-provider.go, Request and the handler are
--              V1/Handler, getTimeout and processResponse V1/Nats/Response, and the other
--              operations V1/Nats; of pkg/service/base-service.go, the locks are V1/Lock, with
--              services whose transactions overlap as a system of steps (V1/Lock/System), and Init is
--              V1/Init; NewProxyServer of main.go is V1/Start; pkg/service/auth-service.go is
--              V1/Auth; pkg/route/route-service.go is V1/Route, pkg/route/handlers V1/Middleware,
--              and the handler of pkg/route/route-message-handler.go V1/Rest; PatternFromEndpoint
--              of pkg/utils/utils.go is V1/Endpoint; of pkg/route/socket, the connection is
--              V1/Connection, the handlers are V1/Socket, and wsHandler is V1/Socket/Loop;
--              pkg/models/migration/base.go and pkg/models/schema.go are V1/Migration.
--   Tests      each result at a concrete input, and runs of the definitions.
--
-- How they interact: a socket handler finds a pattern by Socket/Endpoint and calls the provider of
-- Broker/Provider, which asks the service of the pattern through its implementation; at the
-- service Api/Events or Api/Request answers by the operations of Broker/Call; the requester reads
-- the answer in Broker/Provider, after Nats/Response has waited for it. The HTTP handler requests
-- the pattern of its route in the same way. In version 1 every handler asks the service `route`,
-- whose handlers ask the application: V1/Handler meets V1/Route, where `route_raw` delivers each
-- message and a mailbox holds the answer, and V1/Nats/Interface fills the provider of a WebSocket
-- connection (V1/Connection) with that of V1/Nats. Api/Service subscribes a service to all this.
--
-- The state. Code that has effects is a function on a state `W` of all that it talks to, which its
-- theorems leave open: the JSON encoders (`Codec`), the specific provider (`Specific`), package
-- nats (`Bus`), the authenticator, the authorizer, the validators and the handlers are parameters,
-- and any of the last four may panic. A Go string is the list of its bytes, and a `fmt.Stringer`
-- the text that it gives. An `interface{}` is nil, bytes, a text, or another value by its JSON text.
-- Durations and int64 are integers with the bound 2^63 written out; the codes of messages are
-- natural numbers.
--
-- Every loop of the source runs over a list and is a structural recursion, so that no fuel is
-- needed; the wait for a response is a recursion on what is received. The only fuel is in the
-- digits of a decimal, where n + 1 rounds are enough for n (Prelude/Decimal).
--
-- Not modelled: patterns that share one method value are modelled as values of their own; the
-- mutexes and goroutines, but for those that a socket or a burst starts, so that one call of a
-- provider runs at a time; the JSON and URL
-- encodings; the local NATS server; the HTTP server and its router; and of version 1 the Kafka and
-- Spike providers, which are commented out as a whole, and the structs for Postman, which have no
-- operations.
pub mod Prelude
pub mod Text
pub mod Go
pub mod Rids
pub mod Broker
pub mod Api
pub mod Socket
pub mod Nats
pub mod Http
pub mod TestProvider
pub mod TestService
pub mod V1
pub mod Tests
