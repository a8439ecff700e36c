-- ===== src/Lib.antt =====
-- The programs of this repository in JavaScript. The MQTT broker (Nodejs_Broker) has clients with
-- certificate chains that are authenticated by MQTT 5 AUTH packets, get an access control list from the
-- hashes of their chain's public keys, and subscribe and publish under it. Beside it stand the brokers'
-- registration in Redis, the gateway that makes HAProxy backends of them, a bridge for WebSockets, and
-- the service that signs the certificates of spaces.
--
-- The program and its model:
--   Nodejs_Broker/client_session.mjs, ClientSession and ClientSessionInternal
--     Session: handlePacket, parse, delete; Session/Connect: handleConnect, sendConnack;
--     Session/Auth: handleAuth; Session/Subscribe: handleSubscribe; Session/Publish: handlePublish,
--     sendPuback, sendPubrec, forwardMessage, handlePingreq; Session/Access: the test of an ACL that
--     handleSubscribe and handlePublish make. Packet has the packets and the constants.
--   Nodejs_Broker/client_session.mjs, getAclConfig: Acl; matchTopic: Topic
--   Nodejs_Broker/client_acl.mjs: Acl;  client_collect.mjs: Collect;  client_topics.mjs: Topics
--   Nodejs_Broker/client_certificate_.mjs: Certificate (the chain), Certificate/Signature
--     (the signatures), Pem (splitCertChain)
--   Nodejs_Broker/index.mjs: Server (the listeners of a socket)
--   Nodejs_Broker/redis_config.mjs, sha256PublicKey from the digest on: NodeId;
--     updateStoreEndpoints from the text that Redis gives to the list that is written: Endpoints;
--     the commands of several brokers in one Redis, updateStoreEndpointOfNode: Registration
--   ProxyWSS/index.mjs: Proxy. Proxy/Backends: BACKENDS, isValidToken; Proxy/Pool: getBackendClient,
--     releaseBackendClient; Proxy/Handlers: the listeners of a socket; Proxy/Data: the state
--   HAProxy_Gate/dynamic-backend/index.mjs: Gateway;  backend_redis.mjs: Gateway/Nodes;
--     backend_in_haproxy.mjs: Gateway/Haproxy, with path.join in Gateway/Paths; runs of main that
--     overlap at an await: Gateway/Overlap
--   test/client_mtls/index.js, the answer of a client to a challenge, and its spaces: MtlsClient
--   dashboard/SpaceService/server.mjs: Space, with the openssl commands in Space/Openssl
-- Capture stands for the regular expressions of Gateway and Space, PlainObject for objects that are
-- used as maps, Effect for code that changes a state and may throw. Map and TextSet stand for the Map
-- and Set objects of JavaScript, Json for the values of JSON.parse, Result for code that may throw.
-- Examples has a concrete runtime and the theorems at concrete values.
--
-- Session/Keeps has the interface for properties of a whole process: a property that each change of the
-- maps keeps (Laws) holds after every packet (Session/Keeps/Handlers) and every run (Server/Keeps). It
-- is filled three times: Server/Invariant (well-formed maps), Server/Granted (where ACLs come from) and
-- Server/Confined (where subscriptions come from). Server/Keeps says which auth packet of the events
-- is handled in which world (Heard), so that a right is traced to the packet that it was granted for.
--
-- How the parts interact: Server.step takes the event of one socket. A chunk goes through Session.parse
-- to the handlers, which read and write the maps of the whole process; the end of a connection goes
-- through Session.delete. World is the state: the maps of Collect, Topics and Acl, what each session
-- holds, and the output so far. A handler is an action on the world (World.Exec) that may throw, and
-- what it did before a throw stays done. JavaScript runs a listener to its end before the next, so a
-- process is a sequence of events.
--
-- MtlsClient is the other side of handleConnect and handleAuth: MtlsClient/Exchange joins the two, and
-- MtlsClient/Topics joins getAclConfig and the access test with what the client makes of its ACL.
--
-- The other programs stand beside the broker. Gateway reads what brokers write to Redis under the keys
-- of redis_config.mjs, and writes a file for each node that HAProxy does not list. Proxy is a client of
-- MQTT backends. Space signs the certificates of spaces, which stand in the chains of clients.
--
-- Choices of the model:
--   - Proxy: each listener, timeout and tick of the interval is an event. The flags of an MQTT client
--     change by events; a new client is neither connected nor reconnecting. Of the calls of ws and mqtt
--     only mqtt.connect and publish may throw. Timeouts all have the same length, so they elapse in
--     their order. A parameter of the URL is given at most once. The listeners that only log are left
--     out. The module is taken to have loaded; as it stands, require is not defined in it.
--   - Registration: a broker's object config.mqtt stands by its JSON. A timer's command is a step, and an
--     entry may expire at any time. A write that throws ends the sequence.
--   - Gateway: the answers to the commands and of Redis, and what each docker kill throws, are parameters.
--     A reload that fails is caught, and is not counted as one; one run of main is a function in
--     Gateway. In Gateway/Overlap it is a sequence of sections, from one await to the next, and other runs
--     take theirs between them; Redis answers the gets of one run together, as they change nothing. Node
--     ids are not the decimal numbers that JavaScript would put first in an object.
--     White space is that of regular expressions.
--   - MtlsClient: the key is what it signs and the address of its public key. The broker's parser gives
--     the data of an auth packet as a buffer, and so does the client's. The JSON of the ACL in a CONNACK
--     is taken as the entries that it holds.
--   - Space: openssl is a function of its arguments and the files, and may change any file. The text of
--     an exception is left out of a reply. An async handler that throws is answered by the error handler,
--     as in Express 5.
--   - Node's crypto, bs58, Date and JSON are the parameter Runtime. The only assumption on it, where a
--     theorem has it as the hypothesis `plain`, is that a hash in base58 is not empty and has none of
--     the characters / + # (they are not in the alphabet of base58, and SHA-256 has 32 bytes).
--   - mqtt-packet is not modelled. A chunk is the list of packets that its parser emits; an error of the
--     parser after the last of them is caught by parse and has no effect. mqttPacket.generate is taken
--     not to throw, and an output is the object that it is called with.
--   - crypto.randomBytes and the clock are arguments of a handler. Times are natural numbers, the
--     milliseconds from the earliest date that Date has.
--   - A socket has a number; the session on it has the same number, so that a map from ids to clients is
--     one from ids to numbers. An undefined clientId is the empty text, which is no client's id.
--   - A text is the list of its code units; equality of texts is equality of lists.
--   - An object that JSON.parse gives has no member of its own that is named toString or valueOf.
--   - Logging is left out.
--   - Certificate.rebuild runs on fuel, the number of certificates that are left. Each round takes one,
--     so it is enough. Pem.find_certs has the length of the text as fuel; each round goes on to a shorter
--     rest, and more fuel changes nothing. NodeId.base58_loop has the number itself as fuel; each
--     round divides it.
--
-- Not modelled: Nodejs_Broker/config.mjs and, of redis_config.mjs, the connection to Redis and the reading
-- of the certificate (files, environment, connections), the socket file and the signals of index.mjs,
-- pubsub_redis.mjs and the settings of HAProxy_Gate/dynamic-backend (connections), its Lua routing, the web pages of dashboard, the broker's
-- test program, the connection of the test client, and CXX_Broker.
pub mod Prelude
pub mod Map
pub mod TextSet
pub mod Topic
pub mod Acl
pub mod Collect
pub mod Topics
pub mod Result
pub mod Json
pub mod Pem
pub mod Runtime
pub mod Certificate
pub mod Packet
pub mod World
pub mod Session
pub mod Server
pub mod Examples
pub mod MtlsClient
pub mod NodeId
pub mod Endpoints
pub mod PlainObject
pub mod Proxy
pub mod Effect
pub mod Gateway
pub mod Capture
pub mod Space
pub mod Registration
