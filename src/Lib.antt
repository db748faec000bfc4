-- ===== src/Lib.antt =====
-- Shiny Song Tools: a verification library for the Rust runtime that is injected into a Unity game. The
-- game calls a hooked method (LateUpdate); the runtime's replacement takes one frame of the App of
-- plugins, and passes the call on to the original.
--
-- The parts, from the bottom, with their files here:
--
-- Core/Gate (crates/core/src/gate.rs): the process gate that every hook site reads, closed, open, or closed
--   for good. Interleaving takes its open and close apart into their atomic stores. Each plugin has such a
--   gate as well (crates/runtime/src/gate.rs).
-- Core/Error, Core/Original (crates/core/src/error.rs, original.rs): the errors, and the guard that lets the
--   original be called once.
-- Core/MethodSlot (crates/core/src/method_slot.rs): bind, install and restore of a method pointer over any
--   memory with a compare-exchange, by MethodPointerSlot::bind, install and restore. Raw is the atomic word
--   of the code, Target the identity of a hook target.
-- Core/EntryPatch (crates/core/src/entry_patch.rs): the other such memory, which rewrites the entry of a
--   function. plan_op to build_trampoline move the displaced instructions (Emit, Layout); Memory has the
--   patch bytes, remap_patch, EntryPatchMemory::new and its compare_exchange. A failed patch leaves a note
--   of its failure, so this memory does not keep the contract of Core/MethodSlot to the letter, and what it
--   keeps is stated of it alone.
-- Core/Hook (crates/core/src/plugin_api/hook.rs): HookSite::dispatch in Dispatch, and HookBuilder::install
--   with its two restore actions in Install, over any slot memory. A site is seen in the middle of its
--   installation by concurrent calls; InstallRun keeps every view of it.
-- Core/Bridge (crates/core/src/il2cpp_bridge.rs, il2cpp_recon.rs): the backend over the IL2CPP bridge library.
--   Resolved is about the targets of hooks, Ladder about the exports and the domain.
-- Core/Debug (crates/core/src/plugin_api/debug.rs): the channel of a debug topic, and the handler system of
--   the main domain, which takes its requests and answers them. Order is about both. Relay is
--   the relay system of the callback domain with the callback's side of its two slots; what the callbacks
--   of other threads do between its takes is an argument.
-- Runtime/Topics (crates/runtime/src/core_state.rs): the registry of the topics, and what the retirement of
--   an owner does to them.
-- Runtime/Handoff (crates/runtime/src/handoff.rs): the one place where the bootstrap leaves the App.
-- Runtime/Scheduler (crates/runtime/src/scheduler.rs): a frame, SchedulerContext::run_frame with its panics,
--   over an App that is an interface (AppDriver).
-- Runtime/Host: what the App uses of code elsewhere: the ECS world, systems, restore actions, route drains.
-- Runtime/Manager (crates/runtime/src/manager.rs): the plugins' records; Registered has their lookup by id.
-- Runtime/App (crates/runtime/src/app.rs, host.rs): add_plugin in Build, run_startup, run_update and
--   teardown_all, with rollbacks. Accounting is about the resources in the world, Lifecycle about the
--   states and the reports of the owners.
--
-- Core/Mailbox (crates/core/src/container.rs): the three mailboxes between the callbacks and the main thread.
--   BoundedQueue stands on the lock-free queue of the crossbeam library, a parameter (ArrayQueue).
-- Core/Route (crates/core/src/plugin_api/route.rs): the drains of the routes into the messages of the world;
--   what callbacks send while a drain runs is a list of values for each round.
-- Core/Event (crates/core/src/event.rs): the queue of compact events, with emissions and drains in any order.
-- Runtime/Config (crates/runtime/src/config.rs, crates/core/src/plugin_api/config.rs): load_config and
--   parse_config, over the TOML library and the file system as parameters.
-- Runtime/Bootstrap (crates/runtime/src/bootstrap.rs): Polling has the two waits, Run the ladder of
--   run_bootstrap_with_readiness_wait, one function from each of its calls on, and Publish what follows the
--   binding of the slot: the App of production_plugins, publish_context, install_hook and the handoff. The
--   App and the context that it leaves are those of Runtime/App and Runtime/Scheduler.
--
-- Runtime/Process: the parts together, the frames of Runtime/Scheduler over the App of Runtime/App from the
--   context that Runtime/Bootstrap leaves. APP_SLOT is thread-local, so each thread has its own slot beside
--   the one context. The frames come in any order on any threads, one after the other, each whole;
--   Runtime/Scheduler/Keeps is the lemma on one of them.
-- Plugins/Dump (crates/translation_dump/src/lib.rs): Records are what the hooks relay, Capture is
--   capture_text, Maps the ordered maps by their lookups, State DumpState with merge, merge_map, flush,
--   flush_if_due, write_atomic_json and dump_update. Atomic, Saved and Lyrics are about the files.
--   Walk is walk_string_dictionary over the game's memory (with crates/core/src/il2cpp_recon.rs for the
--   strings in it), and Dictionary the topics that use it and the state, with Merged about the merge. Heard has the hooks on shown texts,
--   Files the hook of DataFile.GetBytes, Batch dump_one_data_file and the loop over the parts of a scenario,
--   Batch/Scenarios scenario_dump_handler and Batch/Songs lyrics_dump_handler. The loop over the parts runs
--   on fuel, since the game decides when it ends: more than six beyond a bound of their numbers is enough.
-- Plugins/Debug (crates/debug/src/lib.rs): the transport and handle_frame; Frames, encode_frame and the
--   reading of frames from a socket; Session, handle_connection; Dispatch, the Update system, which uses the
--   channels of Core/Debug and the topics of Runtime/Topics. What the main thread does to the transport in
--   a round of the connection is an argument.
-- Plugins/Recon (crates/recon/src/lib.rs): the search for callers in Callers, the walk over the load commands
--   in Section.
-- Plugins/Fps (crates/unlock_fps/src/lib.rs): the two setter hooks, fps_startup and fps_set_handler.
--
-- Conventions. Code that can be cut off by a panic has its end as a value (Finish, Outcome, SystemEnd). What
-- other threads do between two steps of an operation is a function `others` that stands there, or a step
-- relation. An operation under a lock is one step. A plugin's code (handlers, systems, build, restore
-- actions) and the game's are arbitrary: functions, or trees of the calls that they make. A machine word is
-- a natural number with its wrap-around written out; a signed offset is its two's complement. The
-- functions are total by structural recursion: the loops of the source run over lists, the drains of the
-- routes over their watermark, and the nop padding of the trampoline over the length that is missing. The
-- two waits of the bootstrap take fuel, one for each poll, and end in `none` without it; k + 1 polls are
-- enough where k backoffs reach the deadline: 2401 for the readiness wait of run_bootstrap, whose deadline
-- is 120 s and whose backoff is 50 ms.
--
-- Hypotheses on code that is elsewhere: a world inserts and removes a resource by its type and changes no
-- other (WorldOps); a Mach remap that succeeds shows the staged copy, one that fails changes nothing
-- (System); a compare-exchange writes only if it found the expected word (IsLawful, which the atomic
-- word of Raw keeps); startup systems insert resources only by their queues (KeepsAll, where it is
-- named); a bounded queue takes a value unless it is full and gives the values back in order (ArrayQueue);
-- the clock does not go back, and a sleep lasts at least as long as asked (Clock); only a rename changes the
-- dump file, and it brings the whole temporary file there or does nothing (IsAtomic); an object of the JSON
-- library has the fields that it is made from (Json); a read from a socket takes bytes from the front of
-- those to come, or reports the end or an error (Stream); the
-- bridge library finds the single method of a name and a number of arguments (Cache), and loads only if it has all addresses (Exports);
-- a folder keeps its files, and has a file after a write that succeeds (IsKeeping).
--
-- Not modelled: memory orderings weaker than sequential consistency; cache maintenance; the arm64 meaning
-- of the emitted words; the FFI entries, which only call other code; logging and introspection snapshots;
-- the types of resources, containers and messages beyond an identity; frames that run while the bootstrap
-- is between its install and its handoff; frames that overlap with others, and the end of a thread; the timing probe of the bootstrap. Not yet: the build of the
-- dump plugin, the route table and the plugin context.
pub mod Prelude
pub mod Core
pub mod Runtime
pub mod Plugins
