-- ===== src/Lib.antt =====
-- SeraphBot: a Twitch chat bot. A model of its core, and proofs about it.
--
-- The parts of the program, how they interact, and the files that model them:
--   * include/seraphbot/core/chat_message.hpp (Chat): the message that the parts pass on.
--   * src/core/command_parser.cpp (CommandParser): finds the command and the arguments in a chat
--     message and runs the handler registered under the name. `tokenize` is the module Tokenizer.
--   * src/core/lua_command_engine.cpp (Metadata, Cooldown, Permission, LuaEngine; LuaContext is
--     the context that a script sees): loads commands from Lua files, registers a handler for each
--     with the parser, and in the handler tests the user's permission, the cooldowns and the uses
--     before it calls the script.
--   * src/core/audio_system.cpp and src/core/miniaudio_player.cpp (Audio, with Whitelist and
--     Player): the sounds that scripts play, from whitelisted directories only.
--   * src/tw/config.cpp (Https), src/tw/auth.cpp (Auth), src/tw/eventsub.cpp and
--     src/tw/chat/read.cpp (EventSub), src/tw/chat/send.cpp (ChatSend): the network code.
--   * src/core/twitch_service.cpp (TwitchService): logs in, connects to the chat, hands chat
--     messages to a callback (Events) and sends messages. TwitchService/Session adds the buttons
--     of src/ui/imgui_manager.cpp and makes steps of all this; TwitchService/Owners is about which
--     coroutines are suspended in the object of EventSub, and who owns it.
--   * src/core/connection_manager.cpp (Connections): the threads, and a connection up to its TLS
--     handshake, which fills the interface that the network code takes.
--   * src/discord/notifications.cpp (Discord, with Placeholder): tells a Discord server that a
--     stream has begun. include/seraphbot/obs/obsservice.hpp (Obs, with Steps and Video): shows a
--     video in OBS Studio; a null pointer that is dereferenced is a result of its own there.
--   * src/ui/imgui_manager.cpp with include/seraphbot/viewmodels (Ui, with Colour): what the
--     windows do with what is typed and pressed. Application/Frame is a frame of all of them, and
--     Application/Arriving what a text from the WebSocket sets off. src/main.cpp is
--     Application/Entry.
--     What it draws is Ui/Drawing, a sequence of the calls in Ui/Calls, and Application/Drawing
--     puts the frames together; Ui/Window is the window of GLFW with ImGui, and
--     Application/Lifetime that of a whole run of the program.
--   * src/commands (Scripts, and Scripts/Sfx for sfx.lua): the scripts of the commands, in Lua.
--     Scripts/Hosting makes them the functions that the handler of the engine calls.
--   * src/core/app_state.cpp (AppState): the queue of chat messages from the network to the user
--     interface. src/application.cpp (Application) sets all this up, and is the callback.
--   * src/core/logging.cpp (Logger).
--
-- Functions keep their names in snake_case, and fields theirs without `m_`. A member function is
-- a function from the object's record to the new one. An exception is a `none` or a `failed`, an
-- `int` an integer ℤ, a `std::string` the list of its character codes, and an unordered map an
-- association list. What lies outside of the sources is a parameter: the Lua interpreter, the file
-- system and the clock (LuaHost), connections, timers and JSON (Net; one layer below, the record
-- Tcp of Connections; ObsNet for OBS), `std::filesystem` for sounds (FileSystem), miniaudio with
-- the arithmetic of `float` (Audio/Player), the numbers of Lua (the record Lua of Scripts), GLFW
-- and ImGui (what they answer is an argument). A coroutine runs to its
-- end with the outside as a state, except in TwitchService, where it is cut at its awaits, so that
-- the user's actions fall in between. A frame of the user interface reads the state and acts on it
-- in one step there.
--
-- Loops are structural recursion over the list or the count they run through. The polling of the
-- login keeps its own test and counter of attempts and runs on fuel, one more than the ten attempts
-- of the source: each round adds an attempt, and the eleventh test ends the loop (Auth.Polling). The
-- loop that reads the WebSocket runs over the list of what its reads give.
--
-- Not modelled: the font, positions and styles of windows, formatting and writing of log lines,
-- and `getIsoTimestamp` (a parameter). Overflow of `int` counters is not:
-- it takes 2^31 uses of a command in a stream. The numbers of requests to OBS have their 64 bits.
pub mod Base
pub mod Chat
pub mod CommandParser
pub mod Metadata
pub mod Cooldown
pub mod Permission
pub mod LuaHost
pub mod LuaContext
pub mod LuaEngine
pub mod Net
pub mod Https
pub mod Auth
pub mod EventSub
pub mod ChatSend
pub mod Scripts
pub mod TwitchService
pub mod AppState
pub mod Logger
pub mod FileSystem
pub mod Audio
pub mod Application
pub mod Discord
pub mod Obs
pub mod Ui
pub mod Connections
pub mod Tests
