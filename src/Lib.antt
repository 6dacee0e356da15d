-- ===== src/Lib.antt =====
-- shroudBNC is an IRC bouncer: it keeps a connection to an IRC server for each user, and a client
-- attaches to it. This library models the parts that hold its state and order its output.
--
-- How the parts interact. CIRCConnection reads lines from the server and keeps the channels, each a
-- CChannel with a hash table of CNick objects, and what the server supports (PREFIX, CHANMODES). Lines
-- to the server go into CQueue objects, which CFloodControl serves by priority and within a budget of
-- bytes; what it sends goes into the CFIFOBuffer of the socket. CHashtable and CVector are the
-- containers under all of them. A user's settings are a CConfig, a hash table that is saved to a file;
-- the CKeyring keeps its keys there. A CBanlist is a hash table of a channel's bans. The main loop calls
-- CTimer::CallTimers and sleeps until CTimer::GetNextCall.
--
-- Base: numbers, lists and tests; Base/Results is RESULT of src/Result.h. Results of operations
--   that may fail are an Outcome: a value, an error code, or a fault where C++ leaves the behaviour
--   undefined.
-- Vector: CVector of src/Vector.h. Vector/Removal is about the removal of items.
-- FifoBuffer: CFIFOBuffer of src/FIFOBuffer.cpp. FifoBuffer/Blocks is about the memory's
--   size, FifoBuffer/Contents about each operation, FifoBuffer/History about any sequence of them.
-- Queue: CQueue of src/Queue.cpp. Queue/Order is about the two searches, Queue/Fifo about the queue as
--   a sequence of lines, Queue/Next about QueueItemNext.
-- FloodControl: CFloodControl of src/FloodControl.cpp. FloodControl/Selection is about the choice of a
--   queue, FloodControl/Budget about DequeueItem.
-- Hashtable: CHashtable of src/Hashtable.h. Hashtable/Key has the hash and the comparison of keys,
--   Hashtable/Entries one bucket, Hashtable/View the table as a map, Hashtable/Writes the change of
--   one key, Hashtable/Row the entries in one list, Hashtable/Adding Add and Rehash, Hashtable/Growth
--   the sizes, Hashtable/Iteration Iterate.
-- Isupport: the readers of PREFIX and CHANMODES of src/IRCConnection.cpp, with Isupport/ChanModes and
--   Isupport/Prefixes about the two, and
--   Isupport/Announced with the line 005.
-- Nick: CNick of src/Nick.cpp. Nick/Rounds and Nick/Sorting are about SortPrefixes, Nick/Prefixes
--   about AddPrefix and RemovePrefix, Nick/Tags about tags.
-- Channel: CChannel of src/Channel.cpp. Channel/Modes has ParseModeChange and FindSlot, Channel/Slots,
--   Channel/Changes and Channel/Parsing are about the modes as a map, Channel/Nicks is about the nick list,
--   Channel/Backlog about the backlog.
-- Session: the channels of CIRCConnection of src/IRCConnection.cpp, over Hashtable and Channel, with what
--   ParseLineArgV does for NICK and QUIT. Session/Each is about a loop over a table, Session/Everywhere
--   about the two lines. Session/Lines has JOIN, PART, KICK, TOPIC and UpdateHostHelper; Session/Lines/Put
--   is about a change of an object in a table, Session/Lines/Rooms about what keeps the tables valid,
--   Session/Lines/Kept about each line, Session/Lines/Reached about any sequence of lines.
--   Session/Lines/Names has the lines 353 and 366, a channel's list of nicks, over Tokens, Isupport and
--   Channel; Session/Lines/Entries and Session/Lines/Listed are about the nicks after it, Session/Lines/Naming about the tables.
--   Session/Lines/Numerics has the lines 329, 331, 332 and 333.
-- Usermodes: m_Usermodes of CIRCConnection of src/IRCConnection.cpp. Usermodes/Unset is about taking a
--   mode out in place.
-- Config: CConfig of src/Config.cpp, over the hash table and a file. Config/Lines and Config/Printing
--   are about the file's lines, Config/RoundTrip about Persist and Reload, Config/Saving and
--   Config/Writing about WriteString, Config/Faults about ParseConfig on any file.
-- Keyring: CKeyring of src/Keyring.cpp, over Config. Keyring/Names is about the names
--   of the settings of keys, Keyring/Keys about its operations.
-- Banlist: CBanlist of src/Banlist.cpp, over Hashtable. Banlist/Quota is about SetBan.
-- Tokens: the tokenizers, strmcpy and strmcat of src/utility.cpp. Tokens/Blocks and Tokens/Joined are about
--   ArgTokenize and ArgToArray, Tokens/Bounded about ArgTokenize2, Tokens/Strings about the copies.
--   Tokens/Trim has StrTrim.
-- Timer: CTimer of src/Timer.cpp with the list of timers, a CList of src/List.h. Timer/Rounds and
--   Timer/Calls are about the calls of CallTimers, Timer/Soon, Timer/Progress and Timer/Schedule about g_NextCall.
-- Tests: concrete runs.
--
-- Definitions have the names of the C++ functions in lower case. They take the object as an argument,
-- most of them as the last one, and give the changed object back. A loop is a definition of its own.
-- The outcome of malloc, realloc and strdup is a Boolean argument, true for memory.
--
-- Bounds and fuel. Sizes, lengths and times are natural numbers without a bound, int is an integer
-- without a bound, and unsigned long, which the hash wraps around in, has 64 bits. Add of CHashtable
-- and Rehash call each other, on fuel: every Rehash doubles the buckets and `limit` is the largest
-- array of buckets that malloc grants, so fuel n + 1 is enough for b buckets if limit < b * 2 ^ n.
-- m_BucketCount has no bound either: it does not overflow for limits below 2 ^ 31. There is
-- memory for the entries: the abort in Rehash, where an Add inside it fails for want of that, is not modelled.
-- The loop of Persist has as much fuel as the table has entries, and one more.
-- The loop of CallTimers has fuel for its rounds: one for each link is enough unless functions create timers.
-- Every other loop is by recursion on its data.
--
-- Parameters. tolower, strcmp and strcasecmp of the C library are the record KeyRule, with the laws
-- that the comparisons are equality, of the strings and of their lower-case forms. strlen, strchr and
-- strdup are modelled on strings as lists of characters. atoi, the printing of numbers and qsort are
-- arguments, as are the outcomes of fopen and rename, and what a timer's function
-- returns and does to the list of timers. qsort is any function where nothing is asked of it; the theorem on the
-- redundant keys asks that it rearranges what it is given.
--
-- Not modelled: sockets, DNS, files but for the configuration, logging, modules and commands of clients;
-- the copies of other projects' libraries under third-party; the other utility functions; the pointers of
-- CList; CTrafficStats and CCache; GetChannelModes, SendWhoReply and PlayBacklog of CChannel; the other
-- branches of ParseLineArgV, the calls of modules, and UpdateChannelConfig.
pub mod Base
pub mod FifoBuffer
pub mod Hashtable
pub mod Queue
pub mod FloodControl
pub mod Vector
pub mod Isupport
pub mod Nick
pub mod Channel
pub mod Session
pub mod Usermodes
pub mod Config
pub mod Tokens
pub mod Timer
pub mod Keyring
pub mod Banlist
pub mod Tests
