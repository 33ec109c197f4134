-- ===== src/Lib.antt =====
-- auks: a daemon that keeps Kerberos credentials of users and hands them to their jobs, and its
-- library. This development models the C sources under src/api and src/auksd.
--
-- A client asks the daemon by auks_api_request, which tries a primary and a secondary server in
-- rounds: to keep a credential, to give one back, to drop one, or to dump them all.
--
-- A request comes to the daemon as a message, a buffer of bytes that begins with its type. The daemon
-- looks up the client's role in its access control list, which a configuration file gives, decodes
-- the credential or the uid in the request, and reads or changes the repository of credentials. The
-- repository keeps them in a library, a search tree whose items come from freelists, and in the files
-- of a directory.
--
-- Files and sources, each with its theorems in child modules:
--   Buffer      src/api/auks/auks_buffer.c: auks_buffer_*
--   Message     src/api/auks/auks_message.c: auks_message_*
--   Cred        src/api/auks/auks_cred.c: auks_cred_pack, _unpack, _renew_test, _free_contents;
--               Cred.Init: auks_cred_init; Cred.Update: auks_cred_extract, _store, _renew,
--               _cross_realm, _deladdr
--   Config      src/api/confparse/config_parsing.c: config_Get*, with the cache
--   Acl         src/api/auks/auks_acl.c: auks_acl_*
--   Freelist    src/api/xternal/xfreelist.c: xfreelist_init, _extract_item, _release_item, _extend
--   Queue       src/api/xternal/xqueue.c: xqueue_init, _enqueue, _dequeue, their non-blocking forms,
--               _get_length; the daemon hands the sockets of its clients to its workers in one
--   Library     src/api/xternal/xlibrary.c: xlibrary_get_item, _remove_item, _add_item, _update_index
--   Repo        src/api/auks/auks_cred_repo.c: auks_cred_repo_get, _add, _remove, and in Repo.Walk
--               _pack and _clean, with their _nolock forms
--   Daemon      src/auksd/auksd_req.c: _auksd_*_req, _auksd_check_rw_right, the switch of
--               _auksd_process_msg; Daemon.Serve: _auksd_process_msg and auksd_process_req
--   Engine      src/api/auks/auks_engine.c: auks_engine_init, _free_contents, _set_logfile,
--               _set_loglevel; Engine.Settings: auks_engine_init_from_config_file
--   Api         src/api/auks/auks_api.c: auks_api_request; Api.Calls: auks_api_ping, _get, _remove,
--               _dump, _dump_unpack, _add, _get_cred; Api.Renew: auks_api_renew_cred
--   Stream      src/api/xternal/xstream.c: xstream_send, _receive, _send_msg, _receive_msg, with and
--               without a timeout
--   Base        lists, machine words, memory, C strings, decimal numbers, strtol, and results
--   Examples    concrete inputs to which the theorems are applied
--
-- A function keeps its name without the prefix of its file. What it does to a structure is a function
-- of that structure into Base.Results.Res: AUKS_SUCCESS with the output parameters and the new
-- structure, an error code with the new structure, or `fault`, undefined behaviour. A call in the
-- middle of a function, with the early return on its failure, is `and_then` or a do block. An int is
-- its 32-bit pattern, a size_t a number below 2 ^ 64 and a time_t a 64-bit pattern; wrap-around is
-- written out. A block of memory is the list of its bytes, and each copy is checked against its
-- bounds.
--
-- Parameters stand for what is not in these sources: malloc and realloc (Base.Memory.Allocator,
-- with the laws of the C standard), regular expressions and the resolver (Acl.System), tsearch's
-- memory, mutexes, unlink and auks_krb5_cred_store (Repo.Host), the Kerberos library and
-- getpwnam_r (Cred.Init.Krb, Cred.Update.Kdc), the stream of a client with what the client sends
-- (Daemon.Serve.Connection), what comes of a connection to each server (Api.Peer, Api.Network),
-- of a turn of the renewal (Api.Renew.Turn), which files can be run and opened (Engine.Files),
-- and what the calls poll, read, write, fcntl and gettimeofday return, one after the other
-- (Stream.System). `malloc` answers the same for the same size within one call. The tree of the
-- library is the list of its entries in the order of twalk; what stands in its freelist items is kept
-- with the entries, and a library in order has each item of an entry held by that entry alone.
--
-- The digits of a number are written with ten steps, enough for 32 bits. The loops of Stream and of
-- Api.Renew follow the list of what the system does, and say so when it is over and they are not.
-- Queue.get_length takes fuel, of which the number of the elements is enough. No other definition
-- takes fuel.
--
-- Not modelled: logging; the Kerberos streams, which the parameters above stand for; the engine
-- of the daemon; the generated parser; threads and processes of the daemon, and the renewer's;
-- the command and the plugins; negative timeouts of xstream.c; and concurrency: the locked
-- operations are taken one after the other.
pub mod Base
pub mod Buffer
pub mod Message
pub mod Cred
pub mod Config
pub mod Acl
pub mod Stream
pub mod Freelist
pub mod Queue
pub mod Library
pub mod Repo
pub mod Daemon
pub mod Engine
pub mod Api
pub mod Examples
