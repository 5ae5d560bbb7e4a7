-- ===== src/Lib.antt =====
-- LocalSend Switch forwards the discovery messages of LocalSend clients between hosts that multicast
-- does not connect. A node listens to the multicast messages of its own host
-- (services/multicast_listener.go), puts them and the messages of its TCP peers into a waiting room
-- that lets each identifier in once (services/switch_lounge.go), and takes them out to send them to
-- the other peers and to register its local clients at their origin (services/switch_core.go).
-- services/tcp_core.go carries messages over TCP connections, which services/tcp_connection_hub.go
-- keeps; services/local_client_lounge.go keeps the clients of the host, which a broadcaster and an
-- alive checker (both in services/switch_core.go) announce and probe.
--
-- Prelude: lists, association lists, integers and tests over the native numbers. A Go map is an
-- association list with each key at most once; its order of iteration is the list's.
-- Std: what the program uses of Go's library: strconv and net.IP (Std/Strconv, Std/Ip), container/heap
-- over the TTLHeap of services/switch_lounge.go (Std/Heap), and channels (Std/Channel). An operation
-- of a goroutine ends with a value, waits, or panics: `done`, `blocked`, `panicked`.
-- Configs, Entities: configs/*.go, entities/*.go and the message of protos/switch_data.proto.
-- Utils/Switch, Utils/Cipher, Utils/Net: utils/switch.go, utils/cipher.go, utils/net.go.
-- Utils/LogFiles, Utils/Log, Utils/Path: utils/log.go and GetBaseNameWithoutExt of utils/path.go. The
-- directory of the log is an association list of names and contents; LogFiles has the names of the
-- rotated files and their order; `rotate_logs`, `write`, `close` and `new_log_writer` are rotateLogs,
-- Write, Close and NewLogWriter. Utils/Log/Rotate has the abstract log that they implement.
-- Services/SwitchLounge: services/switch_lounge.go. `write`, `read`, `purge` (one tick of the cleaning
-- goroutine) and `close` are Write, a receive from Read, the goroutine of NewSwitchLounge, and Close.
-- Services/LocalClientLounge: services/local_client_lounge.go, in the same way.
-- Services/TcpConnectionHub: services/tcp_connection_hub.go. Send channels and messages are shared by
-- pointers, so they live in stores, and the hub and the channels hold addresses.
-- Services/TcpCore: services/tcp_core.go. `receive_all` and `handle_tcp_connection_send` are the loops
-- of the two goroutines of a connection over byte lists; Peer and Server are connectPeer and
-- setUpTCPServer over lists of what happens to them.
-- Services/PassiveForwarder, ProactiveBroadcaster, ClientAliveChecker, SwitchCore: the functions
-- setUpPassiveForwarder, setUpProactiveBroadcaster, setUpClientAliveChecker and SetUpSwitchCore of
-- services/switch_core.go; one message, one client, one tick, or one event is a step.
-- PassiveForwarder/Target reads the address that a registration request goes to from its URL.
-- Services/Node: SetUpSwitchCore of services/switch_core.go as a whole. One state holds the waiting
-- rooms, the messages, the hub and where the forwarder and the broadcaster are; the goroutines act on
-- it, these two one connection at a time. `Runs` is what comes of acts in any order, `Reaches` what
-- comes of those that take no connection away that one of the two has still to serve.
-- Services/HttpSender, Services/MulticastListener: services/http_sender.go and
-- services/multicast_listener.go.
-- Main: main.go, from the texts of the options to the settings that the services start with, and from
-- the addresses and ports to what the listener and the core are launched with (Main/Launch).
-- Utils/Autostart: utils/autostart_linux.go. Entities/PacketConn: PacketConn of entities/net.go.
-- Tests: the theorems at concrete values.
--
-- A mutex makes each method one step. Time, random bytes and what the network delivers are arguments.
-- AES-GCM, protobuf, JSON, and the text of addresses are records of functions, with what is relied on
-- as hypotheses. Fuel stands for the length of what a loop consumes: the receiving loop has the number
-- of bytes and one, the cleaning loop the size of the heap, and the loops of the heap its size.
--
-- Not modelled: reading the environment and the flags, the working directory and the logger in main.go,
-- the autostart entry on Windows, socket options, pauses between attempts, and logging. In
-- Services/Node a message goes from a socket into the waiting room in one act: the channels in between
-- only delay it. The lock that the broadcaster holds on the clients while it reads them is left out:
-- an act that it would hold back may come at once, and the broadcaster does not see it. The error of
-- Encrypt is left out, since crypto/rand documents that its Read never fails.
pub mod Prelude
pub mod Std
pub mod Configs
pub mod Entities
pub mod Utils
pub mod Services
pub mod Main
pub mod Tests
