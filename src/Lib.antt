-- ===== src/Lib.antt =====
-- Verification of the Eclipse Paho MQTT C client library: the packets that it writes and reads, the
-- properties of MQTT 5, the validation of UTF-8, the message ids, the exchanges of messages, the linked
-- lists, Base64, and the addresses of servers.
--
-- Paths below are those of the repository.
--
-- How the parts interact. The client hands a publication to src/MQTTProtocolClient.c, which takes a message
-- id, keeps the message for retries and has src/MQTTPacket.c write the packet; what comes in is read by
-- src/MQTTPacket.c and src/MQTTPacketOut.c, which use src/MQTTProperties.c for the properties of MQTT 5 and
-- src/utf-8.c for texts, and is handed to the handlers of src/MQTTProtocolClient.c.
--
-- Which file models which part:
-- - Packet/Wire.antt: src/MQTTPacket.c, readInt, readChar, readUTFlen, readInt4, MQTTLenStringRead and the
--   writers. A pointer into a buffer is the list of the bytes from there to `enddata`. A function that
--   reads gives a Result: `ok`, `err` for the error return, `fault` where the code would read beyond
--   `enddata`, `stuck` where the model has no fuel left.
-- - Packet/Varint.antt: MQTTPacket_encode (`encode`), MQTTPacket_VBIlen (`vbi_len`), MQTTPacket_VBIdecode
--   and MQTTPacket_decodeBuf (`vbi_loop`, `decode_buf`), MQTTPacket_decode (`decode`).
-- - Packet/Publish.antt: MQTTPacket_publish (`publish`), MQTTPacket_send_publish and MQTTPacket_sends
--   (`send_publish`, `sends`).
-- - Packet/Ack.antt: MQTTPacket_ack, MQTTPacket_send_ack, MQTTPacket_send_disconnect, and of
--   src/MQTTPacketOut.c MQTTPacket_suback, MQTTPacket_unsuback, MQTTPacket_send_subscribe and
--   MQTTPacket_send_unsubscribe.
-- - Packet/Connect.antt: of src/MQTTPacketOut.c MQTTPacket_send_connect and MQTTPacket_connack.
--   Packet/Connect/Spec.antt is a server's reader of CONNECT as MQTT describes the packet.
-- - Properties/Types.antt, Properties/Write.antt, Properties/Read.antt: src/MQTTProperties.h and
--   src/MQTTProperties.c. An array of properties is the list of its entries in use.
-- - Utf8.antt: src/utf-8.c. Utf8/Spec.antt is the definition of UTF-8 that it is compared with.
-- - Protocol/MsgId.antt: MQTTProtocol_assignMsgId.
-- - Protocol/Exchange.antt: MQTTProtocol_startPublish and the handlers of PUBLISH, PUBACK, PUBREC, PUBREL
--   and PUBCOMP. `Session` holds the fields of `Clients` and of `state` that they change; what they do
--   outside is a list of events, and what they get from outside is an `Env`. The counters of messages wrap at
--   2^32. A list of messages has no current element: Protocol/Exchange/Messages.antt has the search that
--   tests it first, which gives the same message where no two have the same id.
-- - LinkedList.antt, LinkedList/Ends.antt: src/LinkedList.c. A pointer is an address or `none`, the memory is
--   a function from addresses to elements (`Store`), the address that malloc gives is an argument, and free
--   makes an address empty; reading through NULL or freed memory is a `fault`, and so is a count beyond the
--   greatest int. `size` wraps at 2^64. The contents that an operation frees are a list. LinkedList/Chain.antt says what
--   a list in the memory stands for.
-- - Base64.antt: src/Base64.c, the functions of a build without OpenSSL.
-- - Address.antt: MQTTProtocol_addressPort of src/MQTTProtocolOut.c.
-- - Common.antt: names, Boolean tests, lists and masks that the modules share.
-- - Runs.antt: concrete runs.
--
-- Fuel. `encode_loop` gets a round more than the number, which each round divides by 128. `read_entries`
-- gets a round more than the bytes that are left, of which each property takes one at least.
-- `validate_loop` gets a round for each byte. `assign_loop` gets 65535 rounds, one for each id; the result
-- `none` stands for a search that has not ended by then. `find_loop` and `free_loop` get one round more than the
-- count of the list, which is its length. The loops over a variable byte integer have the
-- four rounds that the code allows.
--
-- Not modelled. Allocation succeeds; but for the elements of linked lists, addresses, the freeing of
-- memory and the copies of strings have no counterpart. The exchanges keep their messages in a list of the
-- model. Log lines, times, masks of web sockets and the persistent store are left out. Sockets, TLS and
-- web sockets are input and output: the function that gives the next byte of a connection, the state of
-- the socket and the codes that it returns are parameters. The client interfaces src/MQTTClient.c and
-- src/MQTTAsync.c, with their threads and locks, the trees and socket buffers, and the retries and the
-- keepalive are not modelled.
--
-- The documentation pages have a search of their own, docs/MQTTAsync/html/search/search.js, of which
-- docs/MQTTClient and docs/MQTTClient_internal have equal copies. A string is the list of its UTF-16 units;
-- functions of the language, such as toLowerCase, are parameters.
-- - Site/Ids.antt: convertToId.
-- - Site/Results.antt: SearchResults.Search, NavNext and NavPrev. `next_loop` gets a round more than there are
--   elements, and ends at the latest behind the last one.
-- - Site/Keys.antt: SearchResults.ProcessKeys, Nav and NavChild. The `div` that FindChildElement finds for a
--   row is a field of the row; Site/Children.antt has FindChildElement itself, on the elements of the document;
--   its walk gets a round more than there are elements.
-- - Site/Box.antt: SearchBox. Positions and sizes are left out.
-- - Site/Index.antt and its children: the rows that createResults makes, and the tables of
--   docs/MQTTAsync/html/search, searchdata.js in Site/Index/Tables.antt. Their names are ASCII texts.
-- - Site/Sections.antt, Site/Panels.antt: docs/MQTTAsync/html/dynsections.js, of which the other two sets of pages
--   have equal copies.
-- - Site/Menu.antt, Site/Menu/Data.antt, Site/Menu/Internal.antt: makeTree of docs/MQTTAsync/html/menu.js, and
--   the menudata.js of the three sets of pages. Site/Menu/Html.antt is a reader of nested lists of links; a round for each list, link and end
--   of a list is enough fuel for it.
pub mod Common
pub mod Packet
pub mod Properties
pub mod Utf8
pub mod Protocol
pub mod LinkedList
pub mod Base64
pub mod Address
pub mod Site
pub mod Runs
