-- ===== src/Lib.antt =====
-- Ionnet GSM, a game server manager: a model of its panel server (server/src) and of the parts of
-- shared/src that the server decides by, with the theorems that make them correct.
--
-- The program. A panel server keeps users, nodes and instances (game servers) in a database. On each
-- node an agent runs the instances' containers and holds a socket to the server; browsers hold
-- another. Requests come through routes that check who may do what, and services change the tables,
-- ask agents, and tell browsers. What is modelled here is the services' logic:
--
-- * Accounts (server/src/modules/users, server/src/modules/auth): one state holds the tables.
--   Accounts.Sessions is auth/service.ts, Accounts.Totp auth/totp.ts, Accounts.Challenges,
--   Accounts.TwoFactor, Accounts.Signin and Accounts.Manage are auth/two-factor.ts, Accounts.Resets
--   auth/password-reset.ts, Accounts.Users users/service.ts, Accounts.Tokens auth/tokens.ts. A sign-in
--   (authenticate) opens a challenge (start_login) that verify_login closes;
--   users/service.ts ends sessions and resets factors.
-- * Access (server/src/modules/instances/access.ts, server/src/modules/nodes/access.ts and the
--   sharing part of server/src/modules/instances/service.ts): roles, scopes, permissions.
-- * Ports (server/src/modules/instances/ports.ts): the ports of an instance on its node.
-- * Instances (server/src/modules/instances): reports of agents (Instances.Events,
--   instances/agent-events.ts), install, power,
--   command and removal (Instances.Service, instances/service.ts), and the supervisor that keeps
--   rows in step with their nodes (Instances.Supervisor, instances/supervisor.ts), which applies
--   reports and starts instances through the former two.
-- * Console (server/src/modules/instances/console.ts): the console lines kept in memory; Instances
--   clears them.
-- * Gateway (server/src/ws/agent-gateway.ts): the agents' sockets and the requests that wait on
--   them; Instances sends its requests through it.
-- * Nodes (server/src/modules/nodes/service.ts, models.ts): enrolment of agents and their secrets
--   (Nodes.Enrolment), presence (Nodes.Presence, which the gateway calls), changes, removal and owners
--   (Nodes.Manage).
-- * Releases (server/src/modules/releases/service.ts): the agent builds that the server hosts, in
--   the order of Versions (shared/src/version.ts).
-- * Templates (shared/src/api/templates.ts): the check of a variable, placeholders, the heap. Specs
--   (server/src/modules/instances/spec.ts, mounts.ts) makes a container's environment with them, and
--   Instances.Variables (instances/service.ts) merges the variables that are checked by them.
-- * Transfers (server/src/modules/files/transfers.ts, tickets.ts): one-time tokens for the bytes
--   between browsers and agents.
-- * Prune (server/src/lib/prune.ts): deletes in batches.
-- * RateLimit (server/src/lib/rate-limit.ts): the limiter that Accounts counts wrong codes and reset
--   mails with.
-- * Common, Text, Enums and Effects: lists, tables, maps and results; the texts of JavaScript;
--   shared/src/enums.ts; and what an operation tells others (server/src/lib/events.ts,
--   server/src/ws/ui-gateway.ts, mail, requests to agents), which is listed in order.
--
-- How code became definitions. A table is the list of its rows; findOne, findAll, update, destroy
-- and count are find?, select, update_rows, destroy and count of Common.Rows. A row object that is
-- saved writes its changed columns to the row with its id. An operation that may throw gives a
-- Result; where it changes state and then throws, it gives the state beside the Result. Names are
-- the source's, in snake case. The clock, random ids and codes, whether a mail went out, and the
-- answer of an agent are arguments; an operation reads the clock once, except that `check` of
-- RateLimit takes the reading of its sweep apart. An operation that waits for an agent is cut in two
-- at the wait, since others may run in between: install, power, command and remove of Instances and
-- reconcile of the supervisor have a _begin and an _end. So has enroll, at its wait before the
-- transaction. enroll, power, command and remove themselves are the two parts where nothing comes
-- between, and so are the starts of instances after reconcile. The numbers of Versions are doubles,
-- with their rounding, infinity and NaN; all others are whole and exact. Code of others (argon2, HMAC,
-- SHA-256, the seal of a seed, the one-time password of a seed at a step) is the record Platform of
-- parameters; no theorem assumes anything of them.
--
-- Fuel. Loops are structural recursions over lists. `decimal` has as much fuel as the number plus
-- one, and a number has no more digits; `head_of` of Ports follows a template's chain of ports for as
-- many steps as the template has ports; `fill` of Templates has one step for each character; the
-- deletes of Prune are shown to need no more rounds than there are rows, and one; the port
-- search recurses over the size of the range; `spacing` of Versions doubles a distance 971 times,
-- and the greatest that a number below 2 ^ 1024 has is 2 ^ 971.
--
-- Not modelled: the web application (web) and the agent (agent, another language); routes, schemas
-- and DTOs, which only parse and print; sockets, streams, files and mail as such; the modules
-- backups, sftp, firewall, reachability, players, settings, audit lists and jobs; of files, the
-- requests that are passed on to agents; of templates, the service and its seed; of instances, the
-- making and changing of instances and their databases in service.ts, and buildSpec and buildInstall.
-- Transactions are taken to be the sequence of their statements, and an operation of the database
-- not to fail.
pub mod Common
pub mod Text
pub mod Enums
pub mod Effects
pub mod Ports
pub mod Access
pub mod RateLimit
pub mod Console
pub mod Accounts
pub mod Instances
pub mod Gateway
pub mod Prune
pub mod Versions
pub mod Releases
pub mod Templates
pub mod Specs
pub mod Transfers
pub mod Nodes
