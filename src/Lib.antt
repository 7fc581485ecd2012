-- ===== src/Lib.antt =====
-- tcp-port: a model of the TCP traffic analyzer, and what holds of it.
--
-- The program reads captured TCP packets, puts the bytes of each direction of a connection together
-- again, finds out which protocol they are of, and reads that protocol's messages. Its parts and
-- the files that model them:
--
-- - Base: lists, slices and integers of Go, texts, `Outcome` for code that returns an error or
--   panics, and `Read` for code that reads from an `io.Reader`. Unsigned words are natural numbers
--   with their wrap-around written out, signed ones integers; a slice out of range panics.
-- - Tcp (tcpport/assembler.go, tcpport/text.go): `Seq` is `compareTCPSeq`, `Window` the ring of
--   `receiveWindow` (`insert`, `expand`, `confirm`), `Stream` is `netStream`, `Connection` is
--   `TCPConnection`, `Assembler` is `TCPAssembler`, `Wildcard` is `WildcardMatch`. A packet goes
--   from `Assemble` to its connection's `onReceive`, into the window of the sender's stream; an
--   acknowledgement moves packets from the window of the other stream to its channel, where `Read`
--   finds them. `Window.Model` states what a window is as a list of packets; `Insert` and
--   `Confirm` compare the ring with it, `Delivery` is about the ring's order and the bytes sent.
-- - Mysql (mysqlport/mysql_protocol.go), Websocket (websocketport/websocket_protocol.go), Zookeeper
--   (zookeeperport/zookeeper_protocol.go), Rocketmq (rocketmqport/remoting_protocol.go), Dubbo
--   (dubboport/dubbo_protocol.go, dubboport/serialization.go, dubboport/triple_protocol.go,
--   dubboport/java_deserializer.go), Mongo (mongoport/mongo_protocol.go), Nacos
--   (nacosport/nacos_protocol.go): the readers of the messages, each from the bytes that are left
--   of a stream. Functions are named as in the source, in lower case: `ReadZKMessage` is
--   `read_zk_message`.
-- - Dubbo.Java: `State` is `javaDeserializer` with the classes, maps and slices that Go shares by
--   pointers, `Strings`, `Blocks`, `Class`, `Content`, `Args` and `Attachments` are its methods;
--   `Runs`, `Moves`, `Ends` and `Nesting` are about the position, `Left`, `Encode` and `Classes`
--   about what is read from given bytes.
-- - In Mongo, `Value` has the values of documents and `bsonToMap`, `Json` their texts, `Message` what
--   `parseBody` makes of a message; `Rounds` and `Lines` are about any document's bytes.
-- - In Dubbo, `Strings` scans a body for strings and reads those of Hessian, `Cleaning` cleans the
--   names of classes; `Words`, `Hessian` and `Metadata` are about what is found and read.
-- - Redis (redisport/resp_protocol.go, redisport/printer.go): commands in `Redis`, replies in
--   `Reply`, texts in `Format`. `strconv.Atoi` is `Base.Text.atoi`.
-- - Printer (tcpport/multiprinter.go, tcpport/printer.go): the queue of messages; `Schedule` has the
--   steps of the goroutines that send and of the one that writes, in any order.
-- - Http (httpport/http_protocol.go): messages, their headers and texts. The texts of other protocols
--   (their printer.go) are the modules `Format`.
-- - App (main.go): the table of detectors and the choice of one, the search for the subcommand, and
--   the filter on the cost of a call (`Cost`). `Handler` is `baseHandler` with the loop that the
--   handlers share, `Handler.Rounds` the rounds of the handlers, each a function from the state of the two
--   streams and of the texts sent to what follows: a further round, the end, or a panic; `Batches`
--   has those that read several responses, and that of Nacos.
-- - Tests: the properties at concrete inputs.
--
-- Loops are recursions over their list, or over a number of rounds: in `Wildcard.match_loop`,
-- `Mongo.Bson.find_field` and `Stream.discard_all`, and for each of these a theorem shows that the
-- rounds given are enough; in the search and the sweep over a window the rounds are the number of
-- packets in it. The loops of handlers and of headers have a round for each byte and one more, as
-- every round takes a byte, and theorems show that they end. Replies of Redis and documents of
-- MongoDB nest, with a round for each byte. Java's values nest without a
-- bound that the bytes give, since a class may be its own super class: `read_content` takes its
-- rounds as an argument, and `exhausted` is to run out of them.
--
-- Parameters stand for code outside of the repository: `quote` for the verb %q of package fmt,
-- `unmarshal` and `is_json` for encoding/json, `to_lower` and `trim_space` for package strings,
-- `parse_int` for strconv.ParseInt, `letters` for the letters that package unicode finds, `fields`
-- and `to_upper` for package strings, `scan_int` for fmt.Sscanf, `compile` for package regexp,
-- `stamp` and `elapsed` for package time, `show` for the verb %v, `join` for filepath.Join, and
-- `can_open` for the success of os.OpenFile.
--
-- For MongoDB and Nacos, `format_time` stands for the text of a time, `format_float` for
-- strconv.FormatFloat, `to_valid` for the runes that `range` finds in a string, `order` for the order
-- in which it goes through a map, `unescape` for url.QueryUnescape, `to_int` for strconv.Atoi, and
-- `pad` for the verb %-14s.
--
-- Not modelled: the texts of Dubbo messages and the handler of Dubbo and Triple; the capture of
-- packets and the command line, which are input and output; goroutines and locks, since each
-- operation is taken to run at once (but for those of the printers), so that a handler finds the
-- bytes of its streams all there; the bound of 1024 packets of a stream's channel; and the heuristics
-- over the bodies of Dubbo, other than the strings that they scan.
pub mod Base
pub mod Tcp
pub mod Mysql
pub mod Websocket
pub mod Zookeeper
pub mod Rocketmq
pub mod Dubbo
pub mod Mongo
pub mod Nacos
pub mod App
pub mod Http
pub mod Redis
pub mod Printer
mod Tests
