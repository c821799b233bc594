-- ===== src/Lib.antt =====
-- Bushido is a desktop browser: a shell of Tauri with a user interface in the webview, and behind
-- it services in Rust under src-tauri/src. This library models services that keep state or speak a
-- protocol, in the words of the code.
--
-- Prelude: what the modules share. Prelude/Tests has the Boolean tests on the native numbers,
-- Prelude/Lists lists and byte strings, Prelude/Outcome `Result<T, String>`, Prelude/Table hash
-- maps as association lists, Prelude/Io methods on a mutable object that may fail.
--
-- Download: the chunked downloads of src-tauri/src/downloads.rs. Download/Segment is the struct
-- `Segment` and what a list of them covers; Download/Plan is the choice of `start` and the
-- segments with which `dl_task_chunked` begins; Download/Split is `try_split`, which the
-- orchestrator calls when a worker ends; Download/Transfer is the orchestrator's loop and
-- `spawn_segment_worker`, as a function on events: each event is one turn of one task, and a
-- theorem on every list of events is one on every interleaving. Numbers are unbounded; the cast
-- to u32 of the plan is written out. Download/Stream is `dl_task`, the single stream, with
-- `pause`, `resume` and `cancel` on its item (Download/Item), again as a function on events; a
-- server (`Host`) answers by the range of a request, and a flush of the writer's buffer may
-- fail. In a chunked transfer the manifest of an earlier run is not kept account of.
-- Download/Commands are `start`, `pause`, `cancel` and `load_pending` on the tables of items and
-- of manifests; `set_priority` is not modelled, and of the resume of a chunked download what
-- `launch` does. Download/Limiter is `RateLimiter`, by the rounds of its loop; what a round
-- refills is given, since the code computes it in floating point. Download/FileName is
-- `dedup_filename`, over a test that tells which names have a file.
--
-- Sync: the encrypted transport of src-tauri/src/sync/noise.rs. Sync/Frame is `send_frame` and
-- `recv_frame` over a TCP stream of bytes that breaks after a number of bytes; Sync/Noise is
-- `NoiseStream` with `send`, `recv`, `send_large` and `recv_large`. The cipher of the crate `snow`
-- is a parameter (`Transport`), with what it documents of two ends of one handshake (`Session`).
-- The splitting into chunks takes the number of bytes as fuel, and every round takes one at least.
-- Sync/Handshake are the two handshakes, over the crate's handshake state (`Snow`). Sync/Protocol
-- are the messages of src-tauri/src/sync/protocol.rs on the plain and on the encrypted stream;
-- their format is a parameter.
--
-- Sync, the conversations: Sync/Talk is a flow of messages with a peer, as the code writes it
-- with sends and receives. Sync/Talk/Tcp performs a flow on a stream, Sync/Talk/Pair runs two
-- flows against each other, each at its own pace, with messages of any size; Sync/Talk/Limits
-- are the limits of send_message and recv_large, in a flow that refuses larger ones. A schedule
-- is a list of sides, and a theorem on every schedule is one on every interleaving. Sync/Pairing
-- are `run_initiator` and `run_responder` of src-tauri/src/sync/pairing.rs, Sync/Engine
-- `sync_with_peer` and `handle_sync_responder` of src-tauri/src/sync/sync_engine.rs over the
-- document of Sync/Document, which is what src-tauri/src/sync/sync_doc.rs does for them;
-- Sync/Incoming is the listener and `handle_incoming_sync` of src-tauri/src/sync/mod.rs, and
-- Sync/Admission the limits of `handle_incoming_pair` and the list of paired devices, which the
-- code also writes to disk. SPAKE2, the ciphers, LZ4 and Loro are parameters, with what they
-- document (`PairLaws`, `SyncLaws`). Timeouts of a receive are the errors of a message that does
-- not come. The handshake comes with its result, a copy of the file that fails leaves a backup
-- that is given, and the log's slices of the bookmarks can panic, which ends a flow as an error
-- does. The number of rounds in a theorem is the number of moves of one run of it.
--
-- Dns: the resolver of src-tauri/src/dns_resolver.rs. Dns/Names is the blocklist; Dns/Resolver is
-- the state, the requests to the servers and the parts of a message; Dns/Resolve is `resolve`
-- before and after the request upstream; Dns/Handlers are the routes. The message format
-- (`Hickory`), the cache (`Moka`, which may drop entries, with `MokaLaws`) and the servers
-- (`Http`) are parameters. The clock and the list of requests made are added to the state.
--
-- Vault: the password vault of src-tauri/src/vault.rs. Vault/State is `VaultState` with its
-- database as two tables, and the ciphers (`Crypto`, with `CryptoLaws` in Vault/Readable) as
-- parameters; of each access to the database to come the state says whether it fails.
-- Vault/Commands are the commands, with what they draw at random and the time as arguments;
-- Vault/Runs is a sequence of them. The password generator is not modelled.
--
-- The contents of the sync document: Sync/Contents is the history, the settings and the open
-- tabs of src-tauri/src/sync/sync_doc.rs, with add_history, write_setting, write_tabs,
-- compact_history, clean_stale_tabs and maybe_compact on `OpenDoc`, which is `SyncDoc` without
-- its file. The maps of Loro (`LoroMaps`, with `MapLaws` in Sync/Contents/Maps) and serde_json
-- (`Json`) are parameters. Sync/Stamps are the times of type i64, as they are written into the
-- keys of the history and read from them; Sync/Contents/Steps is a sequence of changes.
-- Sync/Bookmarks is the tree of bookmarks and folders: write_full and the reading of
-- read_bookmarks_as_json, before its data become a text; Sync/Bookmarks/Edits are the changes
-- of one bookmark or folder. The tree of Loro (`LoroTree`, with `TreeLaws` in
-- Sync/Bookmarks/Nodes) is a parameter. The functions that read the maps as JSON texts, init
-- and maybe_migrate_json are not modelled.
--
-- Content blocker: Blocker is strip_tracking_params and resource_type_str of
-- src-tauri/src/blocker.rs, over the crates url and urlencoding (`UrlCrate`, with `UrlLaws` in
-- Blocker/Form). Blocker/Engine is the engine: init_engine, compile_engine, load_resources,
-- cache_engine and update_filter_lists over the files of the blocker, with the crate adblock as
-- a parameter (`Adblock`, with `AdblockLaws` in Blocker/Engine/Restart). The downloads of an
-- update write one list each, so they are taken in the order in which they end; a write that fails
-- leaves a file that is given. load_metadata
-- and the cosmetic queries are not modelled.
--
-- Shell: Shell/Sessions is the session file of src-tauri/src/lib.rs with its five backups:
-- rotate_session_backups, save_session, load_session and restore_backup, where each copy and
-- write of a command may fail.
--
-- Of the sync, the keys of the device and its discovery and the commands of the user interface
-- are not modelled, nor are the import from other browsers and the rest of the shell in lib.rs,
-- which call the system and the windows for the most part; nor is the user interface, which is
-- not Rust.
pub mod Blocker
pub mod Prelude
pub mod Download
pub mod Sync
pub mod Dns
pub mod Vault
pub mod Shell
