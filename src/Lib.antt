-- ===== src/Lib.antt =====
-- dbus-cxx, a C++ library for D-Bus: the parts that decide what goes over the wire.
--
-- A message (dbus-cxx/message.cpp) keeps a map from header fields to variants, the bytes of its
-- body and its file descriptors. Message::serialize_to_vector writes it with Marshaling
-- (dbus-cxx/marshaling.cpp), and Message::create_from_data reads it with Demarshaling
-- (dbus-cxx/demarshaling.cpp). A variant (dbus-cxx/variant.cpp) is written as its signature and its
-- bytes, and to read one the reader parses that signature (dbus-cxx/signature.cpp,
-- dbus-cxx/signatureiterator.cpp, on the codes of dbus-cxx/types.cpp). Names are checked by
-- dbus-cxx/validator.cpp and object paths by dbus-cxx/path.cpp; the address of a bus is parsed by
-- dbus-cxx/transport.cpp. A connection (dbus-cxx/connection.cpp) queues messages, numbers them and
-- hands them to the transport, and gives the replies to the threads that wait for them. A transport
-- (dbus-cxx/simpletransport.cpp) writes and reads the bytes, behind the exchange of
-- dbus-cxx/sasl.cpp with the server. The arguments of a message are written by
-- dbus-cxx/messageappenditerator.cpp and read by dbus-cxx/messageiterator.cpp; the four kinds of
-- messages are dbus-cxx/callmessage.cpp, signalmessage.cpp, returnmessage.cpp and errormessage.cpp.
-- A call that the connection receives goes to the object of its path (dbus-cxx/object.cpp), from there
-- to an interface (dbus-cxx/interface.cpp) and to a method (dbus-cxx/methodbase.h) or a property
-- (dbus-cxx/property.cpp), and is answered by a return or an error.
--
-- Files:
-- - Common: the shared names, Boolean tests on numbers, lists over the native numbers, and maps from
--   texts.
-- - Types: dbus-cxx/types.h and types.cpp, with the enumerations of dbus-cxx/enums.h. Types/Codes.
-- - Signature: Signature, the parser create_signature_tree and initialize. Its recursion takes the
--   text and the stack and returns what is left of them. Signature/Iterator: SignatureIterator.
--   Signature/Total, Signature/Plain and Signature/Printed: proofs.
-- - Wire/Words: bytes, words and signed numbers. Wire/Writer: Marshaling, one function for each
--   overload of marshal. Wire/Reader: Demarshaling. Wire/Variant: Variant and demarshal_variant.
--   Wire/Variant/Conversions: its conversions and operator==. Wire/Variant/Converted,
--   Wire/Variant/Equality, Wire/Padding, Scan, RoundTrip, Numbers, Text, Placed,
--   Values, Variants, Safety: proofs.
-- - Header: MessageHeaderFields and MessageType of dbus-cxx/enums.h.
-- - Validator: Validator. Validator/Names: proofs.
-- - ObjectPath: Path. ObjectPath/Elements and ObjectPath/Decomposed: proofs.
-- - Address: parseTransports. Address/Written and Address/RoundTrip: proofs.
-- - Sasl: hexchar2int, encode_as_hex and hex_to_vector (dbus-cxx/sasl.cpp). Sasl/Exchange:
--   authenticate. Sasl/Hex and Sasl/Conforms: proofs.
-- - Arguments: append_signature and operator<< of MessageAppendIterator outside containers, and
--   MessageIterator. Arguments/Containers: the containers that MessageAppendIterator writes; the open
--   subiterators are a chain, each with its buffer. Arguments/Arrays: recurse, and the vectors and
--   tuples that MessageIterator reads. Arguments/Bytes, Fields, Reading, RoundTrip, Elements,
--   Stopping, Appended, Vectors, Received, Widths and Transfer: proofs.
-- - Kinds: the fields that the kinds of messages share. Kinds/CallMessage, SignalMessage and
--   ErrorMessage: the classes. Kinds/Replies and Kinds/Errors: proofs.
-- - MatchRule: MatchRuleBuilder and MatchRule (dbus-cxx/matchrule.cpp). MatchRule/Sharing: proofs.
-- - SimpleTransport: the state, writeMessage and purgeData. SimpleTransport/Reading: readMessage,
--   which is read_message and, behind it, read_second and read_body, one for each of its three parts.
--   SimpleTransport/Counters, Delivery, Queue and Broken: proofs.
-- - Connection: Connection::priv_data, send, flush, dispatch, process_single_message and the start of
--   send_with_reply_blocking (dbus-cxx/connection.cpp). Connection/Queue and Connection/Replies:
--   proofs.
-- - Objects: the state of objects, interfaces, methods and properties and its changes; interfaces are
--   shared and stand in a heap. Objects/Introspection: introspect. Objects/Properties:
--   Interface::handle_properties_message. Objects/Handling: handle_call_message of methods and
--   interfaces and Object::handle_message. Objects/Paths: the path handlers of a connection,
--   process_call_message and send_error_on_handler_result. Objects/Answers, Once, Answered, Values,
--   Ordered, Registry and Registered: proofs.
-- - Message: Message::priv_data and its operations. Message/Format: serialize_to_vector.
--   Message/Parse: create_from_data. Message/Equality: operator==. Message/Fields, Entry, Entries, Loop, Bytes and
--   RoundTrip: proofs.
-- The modules called Examples and Tests (except Common/Tests) hold runs at concrete values.
--
-- The model: a byte, a character and a machine word are natural numbers, and what the code computes
-- in uint32_t is taken modulo 2 ^ 32. A double is its pattern of 64 bits. State is passed
-- explicitly. A read has one of five outcomes: it returns, an assertion aborts, it leaves the
-- buffer, it throws, or a loop of the model is out of fuel. The loops that have fuel are the parser
-- of signatures, a round for each character; the loop over the header array, a round for each
-- byte of the message and one more; the variants inside variants, with the same number; and the
-- decimal digits of a number, as many rounds as it and one more. A round of the parser takes a
-- character, a round over the header array takes bytes of the message, and a division by ten makes
-- a number smaller. The loop of purgeData runs as long as the kernel gives
-- bytes, so that its fuel bounds what the kernel gives and is no claim on the code. The system calls
-- of the transport and of the authentication are parameters, and so are the slots that methods call
-- and the search for a regular expression, which the C++ library does. What an object sends while it
-- handles a call is a list of messages; what each send does is in Connection.
--
-- The offset and the size of an array are read in one sum, whose order C++ leaves open: it is a
-- Boolean argument of the model, true where the offset is read first. The loop over the elements of
-- an array has a round for each byte of the body and one more, and an element takes a byte.
--
-- Not modelled: logging; the constructors of Variant from containers; dictionaries, variants, file
-- descriptors and the conversions between numeric types where the arguments are read;
-- SendmsgTransport; the waiting of the threads of a connection and its names on the bus, the signals of
-- interfaces, the children of objects, proxies, the bindings to other event loops and the code generator.
pub mod Common
pub mod Types
pub mod Signature
pub mod Wire
pub mod Header
pub mod Validator
pub mod ObjectPath
pub mod Objects
pub mod Address
pub mod Message
pub mod Sasl
pub mod Arguments
pub mod Kinds
pub mod MatchRule
pub mod SimpleTransport
pub mod Connection
