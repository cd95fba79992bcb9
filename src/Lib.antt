-- ===== src/Lib.antt =====
-- A message board for agents: agents register, open conversations, invite each other and post
-- messages of registered types. service.py decides who may do what, and keeps an audit trail.
--
-- The parts, and the files that model them:
--   models.py          Models: the rows of agents, conversations, participants, messages, audit_log
--   schemas.py         Schemas (the registry, the limits, validate_payload), Schemas/Validation,
--                      Schemas/Models (the validators of the models)
--   exceptions.py      Exceptions
--   state_machine.py   StateMachine
--   service.py         Service/Denials (_audit, _deny and its kin), Service/Lookups (the finders, the
--                      loaders, _maybe_expire), Service/Ownership (OwnershipClient, admission),
--                      Service/Registration (register_agent), Service/Gates (the checks of a
--                      message), Service/Conversations (start_conversation), Service/Membership
--                      (invite, accept_invite, decline_invite, leave), Service/Messages
--                      (post_message), Service/Reads (get_conversation), Service/Listings
--                      (list_agents, list_conversations), Service/Inbox (inbox),
--                      Service/Serialization (the dictionaries that calls return)
--   identity.py        Identity: the shape of a subject, agent tokens, try_resolve_email
--   scopes.py          Scopes: the tables of scopes, and the scopes that a token holds
--   observability.py   Observability: the events that calls log
--   providers/comms.py Tools/Caller (the caller's subject and agent), Tools/Errors
--                      (_map_service_errors), Tools/Parsing (UUIDs, dates, choices), Tools/Board,
--                      Tools/Conversations and Tools/Membership (the tools)
--   main.py            Server (the middlewares), Server/Dispatch (a tool call through both)
--   auth.py            Auth (the grace for rotated refresh tokens), Auth/Claims
--                      (_extract_upstream_claims)
-- A function of service.py has its own name without the leading underscore; a block of a long
-- function is a definition that the function is composed of. A tool that shares its name with the
-- service function that it calls ends in _tool. Service/Requests runs the service calls one after
-- another, each in a session of its own; Server/Dispatch runs tool calls likewise.
--
-- A service function is a function from a session to a result and a session (Session). The session
-- holds the committed tables, the tables as its queries see them, and streams of clock readings and
-- UUIDs. What a call has not committed is dropped when the next session begins, so an exception that
-- does not commit rolls back. Transactions are serial: post_message locks its conversation's row, and
-- the interleaving of other calls is not modelled. A UUID is a number and a time is a number of
-- microseconds. Foreign keys are not enforced by the model; Board/Integrity states them. Primary keys
-- and unique constraints are enforced as models.py declares them.
--
-- A tool and a middleware are functions from a world to a result and a world (Call): the world holds
-- the session, the events logged so far and the readings of the monotonic clock. The verified token
-- is an argument, as FastMCP's get_access_token gives it, and so are the parsed arguments of a call.
--
-- Parameters of the model: Pydantic's validation and the size of a payload's JSON (`Pydantic`), the
-- ownership client (service.py's own client over the table of agents is one), the collation by which
-- the database sorts subjects; of Python's library repr, the parsing and printing of UUIDs and ISO
-- dates, rounding, and the time zone of the database session (`Stdlib`), str.lower, and base64 with
-- JSON (`decode`); of FastMCP the base class OIDCProxy, its key-value store and its hash of tokens
-- (Auth).
--
-- Loops are over a list, but for two. follow_rotation_grace recurses on the hops that are left, as
-- the source does. read_directory, the client that reads list_agents page by page, has fuel, and
-- Properties/Listings shows that one call more than there are agents is enough.
--
-- Session/Triple gives the rules for a call's specification, by how it ends, and Session/Reading
-- those for calls that only read. Board says how the tables may change (Steps), what they satisfy
-- (Integrity), and has the lemmas on the rows that foreign keys name (Known) and on each write of the
-- service (Writes). Guarantees has one file for each part of the program, Properties the statements
-- about it, Tests the tables and tokens that they are tried on.
--
-- Not modelled: the set-up of the logger and its level (observability.py), of the providers and the
-- required environment (auth.py), /health and the start of the process (main.py), and db.py, which
-- are configuration and I/O; warnings that are only logged; the migrations; what Pydantic checks of a
-- field by its type, which stands behind `Pydantic`, as do the validators of Schemas/Models for
-- validate_payload; FastMCP's validation of argument types and its wrapping of exceptions. Pydantic
-- and FastMCP are not code of this repository.
pub mod Common
pub mod Models
pub mod Schemas
pub mod Exceptions
pub mod StateMachine
pub mod Session
pub mod Service
pub mod Board
pub mod Guarantees
pub mod Properties
pub mod Tests
pub mod Identity
pub mod Observability
pub mod Scopes
pub mod Call
pub mod Server
pub mod Tools
pub mod Auth
