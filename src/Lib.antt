-- ===== src/Lib.antt =====
-- A model of the OPC UA to MQTT bridge of this repository, open62541_mqtt/mqtt.
--
-- The bridge reads a configuration file into a global configuration and a map of groups of nodes
-- (client-config.cpp). It connects to an OPC UA server and follows the nodes of each group, by
-- subscription or by polling (client-monitoring.cpp), for which the text of a node id is turned
-- into the id (client-nodeid.cpp). Each value becomes a message of JSON or of key=value text, which
-- goes to an MQTT broker (client-mqtt.c, transport.c) or to a TCP server (client-tcp.c,
-- client-trans-tcp.cpp). The two publishers each run a thread that opens the connection.
--
-- Base, Int and CString hold what the parts share: outcomes of code that can fault, C's int, and
-- strings as the lists of their bytes. A pointer that was never set, an index outside a vector and a
-- text too long for its array end the run with a Fault. Json is the interface of json-c.
--
--   NodeId   split and getUA_NodeID of open62541_mqtt/mqtt/client-nodeid.cpp (get_ua_node_id). The
--            inner loop is recursion on the number of rounds left, which is the source's bound.
--   Config   config, load and make_group of open62541_mqtt/mqtt/client-config.cpp, by the same
--            names; the records Configuration, Group and Node are those of client-config.h and
--            client-nodemap.h. std::map is the list of its pairs, in the order of the keys. Meaning
--            is what a file says, apart from how it is read; Loads, LoadsServer and LoadsFile show
--            that it is read so.
--   Net      transport_open and the other functions of open62541_mqtt/mqtt/transport.c and of
--            client-trans-tcp.cpp beside it. The calls made are a list, and an environment answers
--            each from the list so far.
--   Tcp      tcp_connect, tcp_publish and tcp_main of open62541_mqtt/mqtt/client-tcp.c. The state is
--            the two static variables and the calls.
--   Mqtt     mqtt_connect, mqtt_publish and mqtt_main of open62541_mqtt/mqtt/client-mqtt.c, over the
--            packet functions of Paho, which are a record of functions. Threads is mqtt_main one step
--            at a time (advance), beside the threads that publish and main of client-main.cpp, which
--            cancels it; a schedule says which thread makes the next step.
--   PubSub   pub0sub1_main of open62541_mqtt/mqtt/pub0sub1.c, over the same calls and packets.
--   Amqp     amqp_main and amqp_publish of open62541_mqtt/mqtt/client-amqps-producer.c. The calls of
--            librabbitmq are a list, and a Broker answers each. A dead program is a result (exited).
--            Batch is its send_batch, where a Host gives the time and the status of a publication.
--   Monitor  epoch, monitor_start, opcua_poll, callback and opcua_poll_group of
--            open62541_mqtt/mqtt/client-monitoring.cpp. monitor_start and opcua_poll give the
--            groups that are followed; callback and opcua_poll_group give the list of messages to be
--            sent, which deliver hands to the publishers. The floating-point numbers, what "%f"
--            prints and the JSON text are parameters. A read that fails passes its node over.
--            Threads keeps the groups that get a thread each, and Shared the buffer for the topic
--            that these threads share, in any order of their steps; Client has the thread of one
--            with its connection. Contents is the JSON members and texts that the nodes of a group
--            stand for, apart from the code, by which Rounds and Returns say what is published.
--   Client   opcua_server_connect and opcua_server_browse, main (run_main) with the loop that
--            connects (start), and the loop of opcua_poll_group that connects again (reconnect), of
--            client-connection.c, client-browse.c, client-main.cpp and client-monitoring.cpp in
--            open62541_mqtt/mqtt. The state says whether the client object exists, and a call on one
--            that was deleted is a Fault. The threads that main makes and ends are calls in run_main,
--            where pthread_cancel and pthread_join of the number 0 are a parameter. Poll is
--            opcua_poll_group with its client (live_group): reads, time and signal depend on the
--            calls so far. PollRefines is about any device, PollSteady about one that lets the thread
--            connect whenever it asks and gives values that fit.
--   Bridge   the whole of main of client-main.cpp (main_program): what config loads is what run_main
--            and the threads of the polled groups work on. Fitting and Steady are about the devices
--            with which these threads do not fault; Whole goes from a file to the messages.
--   Lepton   readLepton of open62541_mqtt/mqtt/lepton.c, which serves the data items of the OPC UA
--            server of the device.
--   Server   the calls that main of open62541_mqtt/mqtt/server.c makes on that server (server_calls),
--            with the nodes that it adds (server_nodes), as lists. The names of the library's types,
--            and how many there are, are parameters. Sources has readTimeData, and readCurrentTime of
--            opcua-mqtt.c beside it; Certificate has loadCertificate, and Greeting helloWorld, with
--            malloc as a parameter, which may give no memory. Methods has the methods with their
--            arguments and callbacks, and Attributes those of the variables, whose one UA_Variant
--            goes from node to node; Answers, Sound and Declared are about these.
--   Clock    the server of the time of open62541_mqtt/mqtt/opcua-mqtt.c (set_up, handle), over a
--            record of the functions of open62541 that it calls (ServerLib), with what the library
--            documents of them as a hypothesis (Documented).
--
-- The loops of tcp_main, mqtt_main and main run until a signal sets beStop, so they run on fuel: if
-- it is set once n calls have been made (StopsBy, SignalBy), fuel of n + 1 is enough, as is one
-- unit for each round of opcua_poll_group up to the signal. So do amqp_main and pub0sub1_main.
-- reconnect has no such end, and two rounds of fuel show what it does. Each wait of send_batch has
-- fuel of its own. A schedule of threads is a list, and needs no fuel. The loops of a configuration
-- are recursion on its lists.
--
-- Not modelled: what is only printed; memory that cannot be allocated, but for loadCertificate
-- and helloWorld; the bytes of socket addresses; the interleavings of the threads over TCP and
-- AMQP; the other static buffers of the polling threads, which are read as soon as they are
-- printed. json-c, Paho's packets, open62541 and librabbitmq are libraries of which the bridge
-- only calls functions, and stand as parameters. The attributes of objects and methods on the
-- server of the device have no model, nor has what the library makes of a node that it adds.
mod Base
mod Int
pub mod CString
pub mod Json
pub mod NodeId
pub mod Config
pub mod Net
pub mod Tcp
pub mod Mqtt
pub mod Amqp
pub mod Monitor
pub mod Client
pub mod Bridge
pub mod Lepton
pub mod Server
pub mod Clock
pub mod PubSub
