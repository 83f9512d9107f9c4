-- ===== src/Lib.antt =====
-- The message bus dbus-broker: the data structures and protocol machines that decide who may talk to
-- whom, under which name, and at whose expense.
--
-- A peer's bytes are cut into lines and messages (src/dbus/queue.c). It authenticates line by line
-- (src/dbus/sasl.c), and subscribes by match rules (src/bus/match.c); the broker then asks the policy
-- (src/bus/policy.c) and routes its messages by unique IDs (src/dbus/address.c) and by well-known
-- names (src/bus/name.c), whose form the validators (src/dbus/protocol.c) check, and keeps a slot for
-- every expected reply (src/bus/reply.c). The peers and the rules they have in the registries of each
-- other and of names (src/bus/peer.c, src/bus/bus.c) and the driver (src/bus/driver.c) put this
-- together. Whatever a peer makes the broker hold is charged on its user
-- (src/util/user.c).
--
-- The files, by the code they are about:
-- - Dbus/Protocol: src/dbus/protocol.c. The loop of each validator is a recursion over the string with
--   its locals as arguments. Protocol/Grammar has the grammars, Protocol/Relations what the validators
--   say of each other.
-- - Dbus/Address: src/dbus/address.c. An address is an ID, a name, or neither; c_assert() on the
--   result of snprintf() is `none`.
-- - Dbus/Sasl: src/dbus/sasl.c. Sasl/Server and Sasl/Client have one function per state of the two
--   dispatch functions, and Sasl/Line has sasl_split(). `serve` gives the server a sequence of
--   lines. Sasl/Access, Descriptors and Outcomes are about the server, Sasl/Exchange about both.
-- - Dbus/Queue: src/dbus/queue.c. The buffers of a connection's input; Queue/Lines has
--   iqueue_pop_line() and Queue/Pop iqueue_pop_data(), which Queue/Messages is about. The bytes that a
--   caller reads from the socket are appended by the caller.
-- - Bus/Match: src/bus/match.c. match_parse_key() and match_copy_value(); Match/Quoting has a way to
--   write values. Match/Keys has match_keys_assign(), with the library's test of object paths as a
--   parameter, Keys/Validity and Keys/Sender what it keeps. Match/Parse has the loop over a rule, with
--   Parse/Bounds and Parse/Loop about it. Match/Matching has the test of a message against keys, and
--   Matching/Equal the keys that the code takes for equal, Matching/Meaning and Matching/Fits what the
--   test means. Match/Rules has the rules of an owner, over the accounting of Util/User, with
--   Rules/Accounting and Rules/References about it. Match/Tree has the trees of nodes by string, and
--   Match/Index the registry of rules; Index/Nodes, Placement, Owners, Destinations and Runs relate
--   the registry to a scan of all rules, and Index/Flush unlinks them all.
-- - Bus/Policy: src/bus/policy.c. Batches and their import; Policy/Registry has the registry and the
--   snapshots taken of it, and Policy/Snapshot the checks. Policy/Best, Rules, Owning, Own,
--   Conditions, Directions and Transmit relate the checks to the imported rules. What is read from the
--   controller's message is given as records, and the answers of the security modules are arguments.
-- - Util/Misc: the saturating functions of src/util/misc.c.
-- - Bus/Activation: src/bus/activation.c, over the accounting of Util/User; Activation/Accounting has
--   the books.
-- - Util/Sampler: src/util/sampler.c. The clock's answers are arguments; Sampler/Runs takes sequences
--   of samples, and Sampler/Sums has the sums that it is compared with.
-- - Util/Decimal: what the sources use of strtoul(), strtoull() and "%u" of the C library.
-- - Util/Numbers and Util/Hex: util_strtou32(), util_strtou64(), string_to_hex() and string_from_hex()
--   of src/util/string.c and src/util/string.h.
-- - Util/User: src/util/user.c. The accounting of one user by its usages, as charges see it.
--   User/Balance relates the user to a list of charges, its books, and User/Pairs is for objects with
--   two charges.
-- - Bus/Name: src/bus/name.c. A queue of ownerships per name, with the counters of the registry.
--   Name/Requests makes sequences of RequestName() and ReleaseName() of it.
--   Name/Keys is about its queues by name.
-- - Bus/Peer: src/bus/peer.c. The registry of peers; Peer/Counting, Registry and Runs take it through
--   any sequence of connections and calls. Peer/Names has the checks in front of the registry of names.
--   Peer/Matches has peer_link_match() and the searches of src/bus/bus.c over all match registries;
--   Matches/Homes says which rules belong where, Matches/Links and Steps keep it so, and Matches/Found,
--   Broadcast, Monitors and Repeats say what is found.
-- - Bus/Driver: src/bus/driver.c. Driver/Dispatch has the tables of methods and the way of a message
--   through them, with Driver/Codes for the errors; Driver/Names has RequestName() and ReleaseName();
--   Driver/Broadcast has driver_forward_broadcast(). What the other methods do is a parameter.
-- - Bus/Reply: src/bus/reply.c, over the accounting of Util/User.
-- - Common: byte strings, lists and tests on native numbers. The Tests files hold runs.
--
-- A C string is the list of its bytes before the terminator, and a buffer with a length the list of
-- its bytes. `unsigned int` arithmetic is modulo 2^32 where the source leaves it unchecked, and the
-- overflow builtins are tests against 2^32. An allocation that may fail is a Boolean argument where
-- its failure is a result of the function, and so is the log of a user. Red-black trees and linked
-- lists of the libraries are lists; an object that is reached from several of them is in one list, and
-- is found there by its key. Printing a number emits at most 20 digits, which is enough for every
-- number below 2^64. The loop over a match rule has one unit of fuel more than the rule has bytes, and
-- each turn reads at least one byte; nothing else needs fuel.
--
-- The release of a charge tells whether one of its assertions failed. iqueue_pop_data() and the last
-- reference on a match rule pass that on; all others take the state that it leaves.
--
-- Left out: memory addresses and the order of freeing, failing allocations in src/bus/name.c,
-- src/bus/policy.c and the registry of rules, the labels of the security modules, the standard
-- deviation of samples, the texts that are logged, and what mostly passes on system calls: sockets,
-- the list of ready files of the event dispatch, the calls of the security modules. Of the driver, the
-- methods besides RequestName(), ReleaseName() and the registration are parameters, since they read
-- and write messages through a library; the forwarding to one peer, the parser of message headers and
-- the controller are not modelled. Neither is the launcher (src/launch), a program of its own that
-- reads the configuration files and talks to the service manager. Of code that has a variant for
-- Zephyr, the other one is modelled.
pub mod Common
pub mod Util
pub mod Dbus
pub mod Bus
