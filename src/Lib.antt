-- ===== src/Lib.antt =====
-- Nebraska, an update server for Flatcar Container Linux: the parts that decide who gets which update.
--
-- Instances ask the server over the Omaha protocol, which backend/pkg/omaha handles. The runtime
-- service (backend/pkg/api/runtime) registers them, grants updates under the rollout policy of their
-- group and takes the events that report how an update went. The web interface edits applications,
-- groups, channels and packages through the admin service (backend/pkg/api/admin), and keeps its
-- users' sessions in backend/pkg/sessions. Both services read through
-- backend/pkg/api/internal/dbreads and work on one PostgreSQL database. The syncer
-- (backend/pkg/syncer) asks another server for updates and enters them through the admin service.
--
--   Types, Types.Arch   backend/pkg/api/types: the records that pass between the parts; arch.go
--   Db, Db.Keeps        the tables, a statement that may fail, transactions; invariants of the tables
--   Reads.*             dbreads: GetPackage, GetChannel and GetGroup (Groups), GetInstance (Instances),
--                       GetGroupUpdatesStats (Stats), GetRequiredChannelFloors (Floors)
--   Reads.Lookups       GetAppID, GetGroupID and their caches, GetFlatcarAction
--   Runtime.Groups, .Activity, .Instances, .Rollout, .Updates, .Events
--                       the files of backend/pkg/api/runtime; enforceRolloutPolicy of updates.go is
--                       Rollout, the rest of updates.go is Updates
--   Runtime.Service     calls of the service one after another
--   Admin.*             backend/pkg/api/admin: Channels, Floors, Groups and Applications are the files of
--                       these names; packages.go is Packages, Blacklists, Files and Actions
--   Admin.Consistent    what edits of channels, floors and packages keep up
--   Db.Settles, .Runs, .Finds
--                       what actions return, triples, rows found by id
--   Omaha.Messages, .Manifests, .Handler
--                       backend/pkg/omaha/omaha.go: the messages, what is said of packages, and
--                       buildOmahaResponse
--   Syncer.*            backend/pkg/syncer/syncer.go: Packages finds or creates the package of a manifest,
--                       Updates is processUpdate, Checks the round over the channels,
--                       Consistent and Rounds what a round keeps up and leads to
--   Sessions.Cache      backend/pkg/sessions/memcache/memcache.go, and interleavings of its methods
--   Sessions.Session    backend/pkg/sessions/session.go and store.go
--
-- The database is a record of tables, and a handler a function from it to a result and the database
-- after it. What was written before a failure stays written, unless a transaction rolls it back. A
-- list in the database says which of the next statements fail, so a theorem for every database holds
-- for every pattern of failures. The clock stands still while one call is handled. A call runs alone:
-- PostgreSQL's concurrency between calls is not modelled. The caches of ids are fields beside the
-- tables. A log line is nothing. Building a statement never fails, as its parts are constants.
--
-- Code that is not in the repository is a parameter (Reads.Outside): semver, uuid, the casts and
-- intervals of PostgreSQL, the time zones, the configuration. For the sessions it is the copier, the
-- random strings and the cookie codec; new ids are drawn by a parameter (Admin.Rows.Generators), and
-- the syncer's downloads and upstream's answers are functions. Nothing is assumed of them but what
-- a theorem lists.
--
-- Recursion is on lists and texts. Only the digits of a number are written with fuel, 20, which is
-- enough for the uint64 that Go formats. Numbers from the database are natural numbers; the
-- uint64 use count of the session cache wraps around as it does in Go. A negative
-- policy_max_updates_per_period is left out.
--
-- Not modelled: the XML of Omaha messages; the requests, downloads and files of the syncer;
-- teams and users, listings and statistics for the frontend, authentication, generated code,
-- configuration.
pub mod Base
pub mod Types
pub mod Db
pub mod Reads
pub mod Runtime
pub mod Omaha
pub mod Admin
pub mod Syncer
pub mod Sessions
