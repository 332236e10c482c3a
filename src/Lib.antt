-- ===== src/Lib.antt =====
-- A model of deps.cloud: the graph store and the services of its tracker, in both versions, the
-- commands `get` of its command line client, the indexer and the search of the gateway.
--
-- The tracker (tracker/) keeps a graph of sources and modules as rows of a SQL table. In version
-- v1alpha the gRPC server of tracker/internal/graphstore/v1alpha/ writes and reads rows, and the
-- services of tracker/internal/services/v1alpha/ are its clients: `Track` replaces what a source
-- manages and depends on, the dependency and module services read neighbors, and the search service
-- walks the graph. In version v1beta, tracker/internal/graphstore/v1beta/ has a server over an
-- interface `Driver`, and tracker/internal/services/v1beta/ its client, the storage of manifests.
-- The indexer (indexer/) lists the repositories of its remotes, clones each, lets the extractor
-- read its manifest files and hands what it finds to the tracker. The gateway relays a search
-- between its client and the tracker. The command `deps get` asks the tracker for modules, sources
-- and neighbors, and `deps get topology` sorts what a search streams.
--
-- Base: equality, lists over native numbers, results with the panics of Go, maps as association
--   lists, int32 with its wrap-around, bytes. Base.Actions: calls that pass a state and may fail.
-- Codec: `encoding/base64`, `encoding/base32`, `encoding/binary` with the 64-bit int,
--   `hash/crc32` and the queries of `net/url`, as far as the program uses them.
-- Tracker.Alpha.Types, Sql: the messages and the table of graphstore/v1alpha/statements.go. The
--   statements are functions on a list of rows; Sql/Laws and Sql/Joins say what they do.
-- Tracker.Alpha.Store: graphstore/v1alpha/server.go (`Put`, `Delete`, `List`, `FindUpstream`,
--   `FindDownstream`). What the database answers to begin, to each statement, to commit, to a query
--   and to each scan is a parameter, as are the order of the rows of a query, the row behind which an
--   error ends them, which `rows.Next()` does not tell from the end, and what MySQL and postgres
--   refuse. Store/Writes, Reads and Pages are about the handlers, Store/Interrupted about rows that
--   end early, Store/Contract about the interface below. Setup: `NewGraphStoreFor` of the same file.
-- Tracker.Alpha.Schema: services/v1alpha/keys.go, encode.go and decode.go. SHA-256 and JSON are the
--   parameters of the record `Env`.
-- Tracker.Alpha.Client: the interface `store.GraphStoreClient` and the contract `IsStore`, which the
--   client `Track` relies on and the SQL store keeps.
-- Tracker.Alpha.Services, Track, Search: service_dependency.go, service_module.go,
--   service_source.go and service_search.go over any such client. Panics of type assertions are
--   results.
-- Tracker.Alpha.Traversal: the loops of the two graph searches over any requests, with what the
--   other side of the stream does as a parameter.
-- Tracker.Beta: graphstore/v1beta/: GraphData and its transforms, the SQL driver with the statements
--   of sqlite (`Put`, `Delete`, `List` and the neighbors) and with `Resolve`, and the handlers `Put`,
--   `Delete` and `Neighbors`. Tracker.Beta.Listing has the handler `List` and its page tokens,
--   Listing/Tokens and Pages follow them. Tracker.Beta.Traverse has the two threads of `Traverse` as
--   a relation of steps, in which any interleaving is a sequence.
-- Tracker.Beta.Manifests: serialization.go and manifeststorageservice.go of services/v1beta/.
--   Proposal is what a request turns into, Storage is `Store`, which deletes what is stored and no
--   longer proposed, over a client of the graph store as a parameter; Edges, Sizes and Outcome are
--   about its steps, View about what the graph holds after it by a contract of the client, Served
--   about the server of Tracker.Beta, which keeps it, Reading about what it finds stored.
-- Deps.Topology, Names: topology.go and common.go of deps/internal/cmds/get/.
-- Deps.Commands: modules.go, sources.go, dependencies.go and dependents.go of that directory and the
--   command of topology.go, with the services of the tracker as parameters. Commands/Paging is about
--   the loop over pages.
-- Deps.Clients: http_modules.go, http_sources.go and http_dependencies.go of deps/internal/client/,
--   with the HTTP client and JSON as parameters. Clients/Queries is about the queries they send.
-- Indexer.Remotes: the remotes of indexer/internal/remotes/ for static URLs, GitHub, GitLab and, in
--   Bitbucket and Generic, the other two, with indexer/internal/set/. The listings of the hosts are
--   parameters; Pages, Complete, Generic/Serves and Generic/Endless follow their pages. Configured
--   is `ParseConfig` with the constructors of the remotes.
-- Indexer.Consumer: indexer/internal/consumer/consumer.go, with git, the file system, the extractor
--   and the tracker as parameters. Consumer/Walk is about the walk of a directory, Consumer/Cleanup
--   about the order of the calls.
-- Gateway.Search: gateway/internal/proxies/search.go, whose two threads are a relation of steps.
-- Tests: small inputs.
--
-- The searches and the sort of the topology run on fuel: one more than the number of keys that can
-- be reached, or than the number of modules and one, is enough. Two more than the pages behind the
-- first are enough for the listing of a host, one more than the rows for the pages of `List`, one
-- more than the pages for the generic remote, one more than the nesting of directories for the
-- walk, and as many pages of a hundred as hold more than all modules for the commands. A map of Go
-- is a list of its entries in the order of insertion, where Go leaves the order of a loop open.
-- Times are numbers. The source of a request to `Track` is not nil.
--
-- Not modelled: the generated messages, the set-up of gRPC, TLS and listeners with the `main` of
-- each program, the reading of configuration files, the statements of MySQL and postgres in version
-- v1beta, the output of the command line and the proxies of the gateway that pass one call on.
pub mod Base
pub mod Codec
pub mod Deps
pub mod Gateway
pub mod Indexer
pub mod Tests
pub mod Tracker
