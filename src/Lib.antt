-- ===== src/Lib.antt =====
-- RustMine: a Minecraft Bedrock server in Rust, modelled by shallow embedding.
--
-- A client's datagrams come in over RakNet (crates/raknet), whose server keeps a connection for
-- each address, acknowledges and resends, puts split messages together and hands whole payloads to
-- the game. A payload is a batch of packets (crates/protocol) with varints and strings
-- (crates/nbt). A session (crates/server) takes the packets of a client through the login into the
-- world, and gets chunks encoded for it. Block packets change the world (crates/world), and the
-- game (crates/game) goes on in ticks. Command lines (crates/commands) are parsed and looked up in a
-- registry.
--
-- Which file models what:
--   * Base: names that all files share, lists over native numbers, `Result` with `?`, signed
--     integers, bit operations, byte orders, text, and `HashMap` as an association list.
--   * Nbt/Varint: crates/nbt/src/varint.rs. Bounds, Zigzag and RoundTrip prove.
--   * Nbt/Writer: crates/nbt/src/lib.rs, the tag ids and `NbtWriter`. Reader reads compounds, and
--     RoundTrip proves.
--   * Raknet/Packet: crates/raknet/src/packet.rs. Its types are in Packet itself, the field readers
--     and writers in Wire, frames, datagrams and `split_into_frames` in Framing, ACK and NACK in
--     Acks, the offline messages in Offline, `parse_packet` in Dispatch.
--   * Raknet/Connection: crates/raknet/src/connection.rs. RecvQueue and Reassembly prove.
--   * Raknet/Server: crates/raknet/src/server.rs. The shared state is `Inner`; `handle_inbound` and
--     its handlers are in Inbound, `build_datagrams` and `split_payload` in Outbound,
--     `resend_pending` and `timeout_stale` in Upkeep. Soundness has the invariant of the handlers,
--     Transport the way of a message from one side to the other, Upkeep/GivenUp the end of its
--     being sent again, Turns the three tasks in any order.
--   * Protocol, Protocol/Batch, Protocol/Interaction: crates/protocol/src/codec.rs, batch.rs and
--     interaction.rs. The float operations of Protocol/Interaction/Reach are a parameter.
--   * Protocol/Chunk: crates/protocol/src/chunk.rs; its child Decode: decode.rs. Packing, RoundTrip,
--     Uneven and Height prove.
--   * Protocol/Login, Protocol/Login/StartGame: crates/protocol/src/login.rs; Protocol/Id: id.rs.
--   * Server/Session: crates/server/src/session.rs. `on_packet` and its arms are in Session itself,
--     the parsers of bodies in Extract. Steps has the transition relation, Invariant what holds of
--     every run, Handshake that the login is carried through, Reading what the parsers give.
--   * Server/Main: crates/server/src/main.rs: the shared state, and a payload from its packets to the
--     blocks and chunks; Tasks: the packet task, a new connection, a round of the game loop, and
--     runs of these in any order. Recipients, Outsiders, Locks and Runs prove. The floats of the reach
--     and whether tokio's `RwLock` grants `read` to the task that holds it by `write` are the
--     parameter `TaskOps`; tokio's documentation lets nobody read while the lock is held so, and then
--     the task waits for ever where the code asks for the sessions a second time.
--   * Server/Config: crates/server/src/config.rs, and the state that a configuration starts with.
--     The file system and the parser of TOML are a parameter.
--   * Server/Console: the console task of crates/server/src/main.rs.
--   * Commands: crates/commands/src/lib.rs. Its types are in Commands itself, `CommandParser` in
--     Parser, the built-in commands in Builtins, the registry and `execute_raw` in Registry; Parsing,
--     Lookup and Found prove. Reading and printing floats, and the lower case of a text that is not
--     ASCII, are the parameter `TextOps`.
--   * World: the blocks, subchunks and chunks of crates/world/src/lib.rs; World/Store: its `World`;
--     World/Noise: its noise generator, whose float operations are a parameter. Columns, Palettes and
--     Terrain prove of a chunk, Store/Placing and Noise/Building of a world.
--   * Game: crates/game/src/lib.rs. Clock proves; Space has where the players are.
--   * Ecs: crates/ecs/src/lib.rs, its components and spawners. Coords proves.
--
-- How the source is represented:
--   * A byte is a number; a buffer with its cursor is the list of the bytes from the cursor on. An
--     i32 or i64 is the integer it stands for. Unsigned arithmetic that overflows wraps around at
--     its width, as in a release build. A float is its bit pattern, and arithmetic on floats is a
--     parameter.
--   * A handler is a function from the state to the state and the list of what it sends, in order.
--     It is one step: that a handler drops its lock before it sends, and takes it again, is not
--     modelled. Times are milliseconds, and `now` is an argument. That the socket refuses the
--     reply to a first request is an argument too.
--   * Loops over a range or a list are recursion on it. Where a `while` loop takes a byte, a frame
--     or an element in every round, the rounds are counted from the length of what is left, which
--     is enough: the round trips are for the whole functions, with that count.
--   * An index out of bounds panics in the source; in World it reads a default and writes nothing,
--     as the world's own coordinates are always in bounds. In Protocol/Chunk/Decode and
--     Server/Session, where bytes from outside can make the code panic, `none` is the panic; in
--     Server/Main it is a panic or a wait for ever, behind which the task goes no further.
--   * The channel of a session is the list of what was sent. Text is the list of its bytes; in
--     Commands and Server/Console, of its characters.
--
-- Not modelled: tasks, other locks, sockets and channels (the rounds of their loops are), logging,
-- and the inside of the hecs package. crates/plugin-api and crates/net-cli-tools hold comments only.
pub mod Base
pub mod Nbt
pub mod Raknet
pub mod World
pub mod Protocol
pub mod Game
pub mod Server
pub mod Commands
pub mod Ecs
