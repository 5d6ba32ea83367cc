-- ===== src/Lib.antt =====
-- The server of the game Alicia: model and theorems.
--
-- The program is a game server in C++. Clients connect over TCP (libserver/network), send commands
-- in a scrambled framing (libserver/network/command), and are served by directors (server/lobby,
-- server/ranch, server/race, server/messenger, server/chat) that keep records in a cache in front of
-- a data source (libserver/data), rooms in a registry (server/system) and the objects of a race or a
-- ranch in trackers (server/tracker). These modules model the core below the directors, and of the
-- directors the races and the logins:
--
-- - Common: shared tests on numbers, list lemmas, and Dict, the association lists that stand for the
--   maps and sets of the standard library; Bits, laws of `&`, `|` and `^`.
-- - Protocol: src/libserver/network/command. Magic is CommandProtocol.cpp (encode_message_magic,
--   decode_message_magic), Code is RollCode and XorAlgorithm of CommandServer.cpp, Frame is
--   NetworkEventHandler::OnClientData: `command_loop` is its loop, `read_command` and what it calls
--   one round of it, and `on_client_data` the whole. Frame/Session describes the client's side. Send is
--   SendCommand with the part of Client::WriteLoop (Server.cpp) that calls it.
-- - Network: src/libserver/network/Server.cpp. ReadLoop is Client::ReadLoop over OnClientData,
--   Throttle is Server::AcceptLoop, IsConnectionThrottled, OnThrottleDisconnect and
--   OnClientDisconnected.
-- - Stream: src/libserver/util/Stream.cpp with include/libserver/util/Stream.hpp. A sink or a source is
--   a storage and a cursor. Stream/Codes puts a call that writes and one that reads together, and
--   carries what they owe each other through chains of calls.
-- - Structures: src/libserver/network/command/proto/CommonStructureDefinitions.cpp, a record and its
--   write and read for each structure that the messages share.
-- - Room: src/server/system/RoomSystem.cpp, the class Room; Room/Registry the class RoomSystem.
-- - Tracker: src/server/tracker. Race is RaceTracker.cpp, Ranch is RanchTracker.cpp.
-- - Storage: include/libserver/data/DataStorage.hpp, the record cache. Storage/System puts it
--   together with its data source and its consumers.
-- - Items: src/server/system/ItemSystem.cpp, over a Storage of items.
-- - Otp: src/server/system/OtpSystem.cpp.
-- - RaceDirector: src/server/race/RaceDirector.cpp, over the rooms, the race tracker and the codes.
--   Tick is its Tick, Start is HandleStartRace and PrepareItemSpawners, Handlers the handlers of
--   clients that come, get ready, race and leave; Registry is what it looks up elsewhere. Loops,
--   Passing, Served, Whole, Leaving and Ending follow one race of a director through its ticks and
--   the commands of clients.
-- - Authentication: src/server/authentication/AuthenticationService.cpp. Login: the queues of logins
--   and the users of src/server/lobby/LobbyDirector.cpp. Login/Processing is its Tick, Login/Clients
--   the clients of LobbyNetworkHandler.cpp in front of it. Login/Vouched lists what can happen to a
--   lobby and what is invariant; Granted, Online and Reached carry it through the operations.
-- - Infractions: src/server/system/InfractionSystem.cpp and ModerationSystem.cpp. Chat:
--   src/server/system/ChatSystem.cpp, over the users of the lobby and both.
-- - Util: src/libserver/util. Time is the packed dates and Tokens is TokenizeString of Util.cpp,
--   Scheduler is Scheduler.cpp.
--
-- How they interact: the read loop hands what it has buffered to `on_client_data` and drops what is
-- consumed; `on_client_data` uses the magic and the rolling code. The items are records of a storage.
-- The trackers, the rooms, the codes and the scheduler are states of their own that the directors
-- call. The lobby asks the authentication service and polls its verdicts; the chat asks the lobby for
-- the user, and the infractions and the moderation for a verdict.
--
-- State is a record and each operation a function that returns the new state, with `none` for an
-- exception. Sequences of calls are data types of operations with a `run`. Numbers are natural
-- numbers with the wrap of a fixed width written out, a signed one in two's complement. Loops are
-- by recursion on the list that is gone through; the command loop and the token loop recurse on
-- fuel, one more than the bytes there are, and are proved not to need more.
--
-- Locks, threads and logging are left out: a call that holds a lock is one step. So are the tasks
-- that the race director puts on its scheduler. A tick reads the clock once for its tests and once
-- for the time-outs that it sets. Sockets, command handlers, consumers and the listeners of the
-- data source are arguments or events. The other directors, the messages (but not the structures
-- that they share), the registries of game data, the data sources, the authentication backends, the
-- chat servers, and the configuration are not modelled.
pub mod Common
pub mod Stream
pub mod Structures
pub mod Protocol
pub mod Network
pub mod Room
pub mod Tracker
pub mod Storage
pub mod Items
pub mod Otp
pub mod RaceDirector
pub mod Authentication
pub mod Login
pub mod Infractions
pub mod Util
pub mod Chat
