-- ===== src/Lib.antt =====
-- GinBot: the logic of the bot's server and of its command layer.
--
-- A chat platform hands messages to a command registry (pkg/command) that finds a command, splits
-- the message into arguments and binds them by type. Reminders (pkg/reminder) read durations and
-- advance repeating schedules. Triggers (pkg/trigger) answer messages by patterns, with a chance,
-- a cache of candidates and a limit on forced answers. Reposts (pkg/repost) are found by
-- perceptual hashes, looked up by chunks and graded by distance. Front ends call the server with a
-- caller's identity and origin in the headers (pkg/grpc/callermeta); interceptors check the
-- clearance and record the origin (pkg/grpc/interceptor). The server pushes actions to the front
-- ends over reverse streams (pkg/grpc/server, pkg/grpc/client), and a user can take back a fired
-- trigger (pkg/discord/undo.go). The reminder handlers (pkg/grpc/server/reminder.go) and the reminder
-- job (pkg/cron/cronjob/remind.go) work on one table of the database (pkg/db/reminder.go), and the
-- trigger handlers (pkg/grpc/server/trigger.go) on another with the cache in front (pkg/db/trigger.go).
--
-- Files, with the source they model:
--   Base            shared tests, lists, equality, maps, results, calls on a state, tables and text
--   Command         pkg/command/command.go, the types of commands and arguments
--   Command/Registry and below   pkg/command/command.go: Register, Lookup, ResolveChat
--   Command/Chat and below       pkg/command/parse.go: ParseChat, HasPrefix, tokenize
--   Command/Bind and below       pkg/command/parse.go: Bind, BindNamed and the accessors
--   Reminder/Duration and below  pkg/reminder/parse.go: ParseDuration
--   Reminder/Schedule and below  pkg/reminder/cron.go: NextOccurrenceAfter and its helpers
--   Reminder/Table and below     pkg/db/reminder.go: the reminder rows and their statements
--   Service         pkg/grpc/server/common.go: the caller of a handler
--   Service/Reminders and below  pkg/grpc/server/reminder.go: the handlers, what they keep and hide
--   Service/Remind and below     pkg/cron/cronjob/remind.go: the reminder job and its rounds
--   Service/History the handlers and the job in any order
--   Repost/Hash, Repost/Tiers    pkg/repost/repost.go
--   Access          the platforms and headers of pkg/grpc/callermeta
--   Access/Metadata pkg/grpc/callermeta/callermeta.go: WriteHeader, FromHeader, OriginFromHeader
--   Access/Clearance and below   pkg/grpc/interceptor/clearance.go
--   Access/Origins and below     pkg/grpc/interceptor/origin.go
--   Reverse, Reverse/Bounds, Reverse/Identity   pkg/grpc/server/reverse.go
--   Reverse/Client and below     pkg/grpc/client/reverse.go
--   Discord, Discord/Split and below   pkg/discord/respond.go: splitContent and truncateContent
--   Undo and below  pkg/discord/undo.go
--   Trigger/Pattern pkg/trigger/pattern.go
--   Trigger/Table and below      pkg/db/trigger.go: the trigger table, its scopes and statements
--   Service/Triggers and below   pkg/grpc/server/trigger.go: the handlers, and the cache through them
--   Trigger/Chance, Limiter, Cache, Select, Spoiler   the files of pkg/trigger of those names
--   Examples        runs at concrete inputs, one for each result with a hypothesis
--
-- A map is an association list, read by `get` and written by `put`; a string is a list of code
-- points. Machine integers keep their wrap-around where the code can reach it. A mutex that is held
-- for a whole call makes that call one step. Letter folding, the regular-expression engine, the
-- random roller, the cron parser and its schedules, the store behind the caches, the order in which a
-- range visits a map, the Discord session and the answers of the network are parameters.
--
-- A statement of the database is a function on the rows, which it changes at once; a call of the
-- database that fails, which the parameter `faults` decides, was not carried out. A handler and a
-- round of the job are one step each; two of them with their statements interleaved are not modelled.
-- The ids of triggers are compared as texts, so a request is taken to spell a uuid in lower case.
--
-- Fuel: ParseDuration runs on one unit more than the text's length, and every round consumes a
-- character. splitContent's loop over a long line runs on the line's length, and every round cuts off
-- a byte; the limit is 2000 in the program, and at 0, where the source does not end, the fuel does.
-- The calendar walk has the source's own bound of 4320 steps.
--
-- Not modelled: the natural-language and absolute forms of a reminder's time, image fingerprints,
-- URL normalisation, the listings and statistics of reminders and triggers, the storing and the
-- streaming of a trigger's file, the other tables of the database, the RPC transport and the other
-- handlers, the other parts of the platform front ends, configuration and the executables. They are
-- input and output, or rest on third-party libraries.
pub mod Access
mod Base
pub mod Command
pub mod Discord
mod Examples
pub mod Reminder
pub mod Repost
pub mod Reverse
pub mod Service
pub mod Trigger
pub mod Undo
