-- ===== src/Lib.antt =====
-- The client library for Couchbase, sdk/couchbase-core: how it frames requests, finds the server of
-- a document, retries, and keeps the configuration of the cluster.
--
-- A key-value request is a packet, encoded and decoded by the codec in memdx/codec.rs. The packet's
-- key has the id of its collection in front, and its framing extras hold options such as the
-- durability. The router picks the server by the key's checksum and the map of vbuckets, and hands
-- on the map that a server sends back when the vbucket is not its own. The loop of the retries runs
-- such attempts and sorts their failures. The manager of the configurations keeps the latest one,
-- from which the router's map comes. The ids of collections are asked for once and cached.
-- The answers of the HTTP services are read by a scanner for JSON, and their options hold durations
-- as texts in the format of Go.
--
-- Files, with the sources they model (paths below sdk/couchbase-core/src):
--   Prelude         shared names: tests, lists, outcomes, bytes, bits, tables of codes, integers.
--   Memdx/OpCode    memdx/opcode.rs; Memdx/Status memdx/status.rs; Memdx/HelloFeature
--                   memdx/hello_feature.rs; Memdx/FrameCode memdx/ext_frame_code.rs. An enumeration
--                   is a data type; `From` and `TryFrom` are a function each, the second one by the
--                   list of its arms. Memdx/CodeTables relates the two.
--   Memdx/Magic     memdx/magic.rs; Memdx/Packet memdx/packet.rs; Memdx/Error memdx/error.rs.
--   Memdx/Codec     memdx/codec.rs: `decode` and `encode` of `KeyValueCodec`. A buffer is the list
--                   of its unread bytes. Decode, RoundTrip and Malformed prove, Layout is theirs.
--   Memdx/ExtFrame  memdx/extframe.rs: frames, with LEB128 numbers in Uleb and the durability (of
--                   memdx/durability_level.rs) in Durability and those of a response in Responses.
--   Memdx/Crud      memdx/ops_crud.rs: `encode_collection_and_key` and `encode_req_ext_frames`;
--                   Errors the errors of responses, with memdx/ops_core.rs; Mutations, of
--                   memdx/response.rs, the responses to mutations of a whole document.
--   Errors          error.rs, with Services for the `error.rs` of httpx, queryx, searchx, analyticsx
--                   and mgmtx, and Retries for the records of retry.rs.
--   Router          vbucketrouter.rs: `dispatch_by_key`, `dispatch_to_vbucket`; Vbuckets
--                   vbucketmap.rs; Misrouted `orchestrate_memd_routing`; Dispatch proves.
--   Retry           retry.rs, retrybesteffort.rs, retryfailfast.rs; ErrMaps errmap.rs and
--                   errmapcomponent.rs; Loop, Policies, Statuses, Mutations and Backoff prove.
--   Config          configmanager.rs and the order in parsedconfig.rs; Calls has the calls of
--                   `handle_config` as tasks; Update, Fetch and Told prove.
--   Json            httpx/scanner.rs, a function for each state; Run has `step`, `eof` and `valid`;
--                   Grammar the texts of JSON as trees; Feed, Scalars, Structure and Accepts are
--                   about the texts of the grammar, Meaning and Sound about any bytes, Safety
--                   about panics and Truncated about texts that are cut off.
--   Collections     collection_resolver_cached.rs, a function for each section under the lock;
--                   Orchestrate collectionresolver.rs; Runs the turns of tasks in any order; Answers,
--                   Requests and Broken prove.
--   Durations       helpers/durations.rs, the parser; Print the printer; Digits, Fractions, Terms,
--                   RoundTrip, Buffer and Termination prove.
--   Examples        runs of each part on concrete inputs.
--
-- Conventions. Numbers are naturals, a machine word's bound is written out where the code cuts or
-- checks it, and signed words are the integers of Prelude/Integers. A function that can fail gives a
-- value, an error or a panic, where an index, a slice, a difference or a divisor is out of range.
-- The parser of durations has the length of its text as fuel, since each turn takes a unit off it,
-- and the printer of an integer the 20 digits that a u64 can have. The other two
-- loops need none: the writer of LEB128 recurses on the bytes of its buffer, and the loop of the
-- retries on the outcomes of the operation's calls, which are given as a list; where that list ends
-- first there is no result, as the next call has not come back. The text of an error stands without
-- the numbers printed in it or next to them; durations are in nanoseconds.
--
-- Parameters. The checksum of a key (crc32fast), the decoding of UTF-8 and JSON, the replacement of
-- a text in a text, floating-point powers and the server's curve of durations are arguments, with
-- no hypothesis on them; the arithmetic in f64 of a parsed duration is one that is taken to be
-- exact where no number is beyond 2 ^ 53. Tasks, locks, channels and atomic pointers are the values
-- that they hold; a fetch of a configuration is cut at the poll it waits for, a call of
-- `handle_config` where it drops its lock, where it has sent the version and where its caller has
-- used the answer, and any sequence of such turns is a run. So is any sequence of the turns at the cache of collection ids, whose
-- resolver is an argument too.
--
-- Not modelled: sockets and the tasks on them (memdx/client.rs, kvclient.rs and the pools), the
-- bootstrap and authentication, the waking of tasks that wait, the bodies of the single operations,
-- the HTTP services, the sources of configurations, the agent that wires the parts,
-- sdk/couchbase on top of it, sdk/couchbase-connstr, and the generated sdk/protostellar.
pub mod Prelude
pub mod Memdx
pub mod Errors
pub mod Router
pub mod Retry
pub mod Config
pub mod Json
pub mod Collections
pub mod Durations
