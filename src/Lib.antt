-- ===== src/Lib.antt =====
-- spoe-forge: an agent of HAProxy's stream processing offload engine. The agent listens for HAProxy's
-- connections, negotiates on each of them, decodes the NOTIFY frames that arrive, hands their messages
-- to the handlers that the user registered, and answers each frame with an ACK that carries the
-- handlers' actions.
--
-- The parts, and the files that model them:
-- - Prelude: names of the libraries, Boolean tests, lists, integers, bits, text, buffers and dicts.
-- - Spop/Types, Spop/Result: the enumerations and values of spoe_forge/spop/constants.py and
--   spoe_forge/spop/spop_types.py, and the exceptions of spoe_forge/spop/exception.py.
-- - Spop/Varint: `_compose_varint` and `_parse_varint`. Format is the written form as a relation,
--   Compose and Parse tie the two routines to it, Laws has what follows.
-- - Spop/Octets, Spop/Encoders/DataTypes, Spop/Decoders/DataTypes: the typed data of
--   spoe_forge/spop/encoders/data_types.py and spoe_forge/spop/decoders/data_types.py.
-- - Spop/Encoders/Payloads, Spop/Decoders/Payloads: KV lists, messages, actions and metadata, of the
--   two files payloads.py.
-- - Spop/RoundTrip: for every encoder, its bytes under its decoder; Spop/Wire says which payloads
--   the wire can carry. Spop/Safety: what the decoders do on any bytes.
-- - Spop/SpopList, Spop/Frame: spoe_forge/spop/frame.py. `encode`, `decode` and `construct` have the
--   names of the methods; the classes of frames are the constructors of `Payload`.
-- - Server/Configuration: spoe_forge/server/configuration.py and spoe_forge/server/constants.py.
-- - Server/Connection, Server/Handler, Server/Salvage, Server/Loop: `ForgeHandler` of
--   spoe_forge/server/handler.py.
--   A method is a step: a function of the connection into a result and the connection after it, so
--   that what was written before a raise stays written. `_read_frames` with the tasks that it makes is
--   a step relation, `StepsTo`, in which any running task may be the next to end.
-- - Server/Service: what one NOTIFY, and a stream of them, is answered with, as functions of the
--   negotiated size; Service, Service/Refinement and Service/Stream relate the
--   handler's definitions to it, Service/Reply and Service/Heard the frames that HAProxy reads back.
-- - Server/Keeps: any relation between a connection and later ones that sending a frame respects,
--   carried through every operation of the handler.
-- - Server/Core: `core_handler` and `close_connection` of the same class, with `CloseConnection` of
--   spoe_forge/server/exceptions.py. `Ends` is how the task group of a connection can end, `settle`
--   the `except*` clauses and the close: a group of exceptions is a list, each clause takes its part of
--   it, and what a clause raises joins what is left.
-- - Agent: spoe_forge/agent/ and `SpoeForge._notify_handler` of spoe_forge/spoe_forge.py.
-- - Forge: `SpoeForge` of spoe_forge/spoe_forge.py, its handlers' registration and its connections.
--   Forge/Serve is `serve`: the connections that it accepts, each at a stage of its life, as a step
--   relation in which any of them may be the next; and `run`.
-- - Cli: `healthcheck` and `healthcheck_command` of spoe_forge/cli.py. The peer is an argument, a
--   function from the bytes that were sent into the stream that comes back. Cli/Main is `main`, from
--   the command line to the exit status and the records in the log.
-- - Log: spoe_forge/log.py, on a chain of loggers. The effective level is that of Python's `logging`.
-- - Sample: the agent of docker/sample_server.py.
-- The server calls the frames' codec and, for a NOTIFY, the dispatch of the agent, which `process_notify`
-- takes as an argument. The codec calls nothing of the server. `Forge` puts the dispatch and a fresh
-- configuration into the handler of a connection.
--
-- Conventions. A `str` is the list of its code points, `bytes` a list of numbers, a `dict` an
-- association list in insertion order, an `int` an integer, an IP address its number. The value
-- `unsupported` stands for a Python object that is of no type of the protocol. An exception is its
-- class; texts are left out, except for those that the program sends.
-- A stream to read is the bytes that will come and how it ends; a stream to write is what was written,
-- whether `close` was called, and at which bytes the peer or the network takes it down: `lost`, from
-- where `is_closing` holds, and `broken`, where `drain` raises. It lasts if neither ever comes (`Lasts`).
-- A handler of the user is a function into what calling it ends with: a value that it returns, or a
-- raise.
--
-- Fuel: `_parse_varint` gets as many rounds as the buffer has bytes, each of which moves the offset on;
-- the loops over the items of a payload get as many as there are bytes to the end. Running out of
-- rounds is `out_of_fuel`, which is no exception of the program. `_compose_varint` recurs on
-- accessibility.
--
-- A task that is cancelled takes no further step; until then it may go on, and so may the loop, whatever
-- the first exception was (`Winds`). A task comes to its end in one step: between its handler's end and
-- its write it does not wait, but for `drain`.
--
-- Not modelled: opening the port, the event loop and the parsing of a command line, which are Python's;
-- the texts of exceptions and logs; the pause of the sample's handler. Of a negotiation that raises, the
-- partial changes to the configuration are left out, which nothing reads afterwards. `int(s)` and the
-- stripping of white space are those of latin-1 text; `int` takes other white space than `str.strip`.
-- The scope identifier of an IPv6 address is left out. An object in a handler's list that is of no
-- action class is `other_action`, which has no attribute `name`.
pub mod Prelude
pub mod Spop
pub mod Server
pub mod Agent
pub mod Forge
pub mod Cli
pub mod Log
pub mod Sample
