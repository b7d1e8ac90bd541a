-- ===== src/Lib.antt =====
-- github-oras-packages-proxy: a gateway that lets package managers and browsers read packages that
-- are kept as artifacts in one OCI registry. The server hands a request to a handler (server.rs,
-- proxy.rs). It passes the edge (inbound.rs), which refuses what it cannot bound; a package request is
-- then parsed into a route (routing.rs), a browser's request into a path of the directory projection
-- (autoindex.rs), and a request of the Distribution API into a target (oci_gateway.rs). The handler asks
-- the registry client (oci.rs) for documents and blobs, which it obtains with a token where the registry
-- asks for one (auth.rs) and checks against their descriptors, or forwards a write; errors become
-- responses (errors.rs). The publisher (publisher.rs) makes the artifact that the gateway projects from a
-- directory of files. The settings (config.rs) name the one registry and the limits. The files below
-- model these parts, all from crates/github-oras-packages-proxy/src/:
--
--   Protocols, Repository, Routing  routing.rs: Protocol and EnabledProtocols; ValidatedRepository and
--       is_repository_segment; parse_protocol_path, decode_repository_locator, parse_raw_target.
--       Protocols/Laws, Repository/Grammar, Repository/Admission, Routing/Paths, Routing/Soundness and
--       Routing/Canonical hold the proofs, Routing/Errors the errors, Routing/Engine the base64 engine.
--   Http  what the code observes of hyper's HeaderMap and Request.
--   Inbound  inbound.rs: the validations of headers and requests. Inbound/Errors holds the errors and
--       limits, Inbound/Framing, Inbound/Headers and Inbound/Requests the proofs.
--   Autoindex  autoindex.rs: RelativePath, VisibleObject, Index, children. Autoindex/Html holds the page
--       and what is proved of it; Paths, Collisions, Listing, Projection, Completeness, Children and
--       Navigation hold the proofs.
--   Gateway  oci_gateway.rs: parse_path and the checks of references, digests and sessions.
--       Gateway/Targets holds the proofs.
--   Tokens  auth.rs: TokenCache, TokenCredentials::new, bearer_authorization. Tokens/Lifetime holds the
--       step relation and its invariant, Tokens/Isolation what lookups find.
--   Challenges  auth.rs: bearer_challenge, with a cursor as the text from the cursor on. Its two nested
--       loops have one unit of fuel more than the field has bytes, which Challenges/Fuel shows to be
--       enough; Challenges/Pinned holds what is known of a chosen challenge, and
--       Challenges/Accepted that the usual spelling is chosen.
--   Cli  cli.rs: parse. Cli/Laws holds the proofs.
--   Config, Origin  config.rs: Config::from_maps with the parsers of all settings and of the configuration
--       file; Origin has parse_upstream, parse_authority and parse_allowed_hosts. Config/Errors holds the
--       errors; Config/Safety, Config/Sources, Config/Frontends and Origin/Hosts hold the proofs.
--   Errors, RetryAfter  errors.rs: ProxyError and map_error; valid_retry_after with its dates. A response
--       is its status, its body and the writes to its headers in their order. Errors/Relay and
--       Errors/Shape hold the proofs.
--   Libraries  what the client and the publisher use of third-party crates.
--   Oci  oci.rs: Descriptor, Manifest, AutoindexSnapshot, the checks of descriptors and
--       parse_autoindex_manifest. Oci/Errors has OciError, Oci/Streams verified_body,
--       Oci/Responses classify_response, Oci/Locations rewrite_distribution_location with its theorem,
--       Oci/Client request_response_method with the token exchange, Oci/RouteMaps parse_route_map,
--       Oci/Fetch the reads and Oci/Forward forward_distribution. Oci/Checks, Oci/Projected, Oci/Accepted,
--       Oci/Verified, Oci/Confined and Oci/Recovered hold the other proofs.
--   Queries  the loop over the parts of a query that valid_upload_query of oci.rs and
--       valid_distribution_query of proxy.rs share.
--   Proxy  proxy.rs and server.rs: the responses; Proxy/Query has valid_distribution_query with its
--       theorem, Proxy/Distribution handle_distribution, Proxy/Browse handle_autoindex, handle,
--       handle_gateway and the dispatch of the server. Proxy/Admitted, Reads, Handlers, Contacts and Methods
--       hold the other proofs.
--   Publisher, MediaTypes  publisher.rs: the checks of paths and references; Publisher/Build has
--       Publication::from_files, Publisher/Collect Publication::from_directory, with the depth of the
--       directory tree as fuel, since the code bounds it. Publisher/Steps, Invariant, Sorted, Apart,
--       Contents, Outcome, Reread, Published and Roundtrip hold the proofs.
--   Base  shared types, text and number functions of Rust's core library, and their lemmas.
--   Tests  the definitions and the theorems at concrete inputs.
--
-- Text is a list of bytes, since every text that the program accepts is read by its bytes; a method is
-- its token. A Result is `Result E A`, `?` is the bind of a do block. usize and u64 are bounded by
-- 2 ^ 64 wherever the code adds or multiplies with a check, and such a sum is `none` from there on.
-- A BTreeMap is an association list in the order of its keys, whose order `IsSorted` states. All loops
-- are structural recursion over lists, but for those of Challenges, which have fuel, the recursion of
-- collect_files over the levels that its bound leaves, and the digits of a number in Base.
--
-- Time is a number of nanoseconds, and what the clock reads is an argument of the operations that read it.
--
-- The state of the gateway is that of its client: the token cache, and the requests sent so far. What the
-- registry answers is a function of the requests before and of the request, so that it may answer the same
-- request differently each time; a call of the client maps a state to a result and the state behind it
-- (Action), and a handler maps it to a response and the state behind it (Handler). A handler runs
-- from any state to its end; requests that interleave on one client are not modelled.
--
-- Parameters: the base64 engine URL_SAFE_NO_PAD (the record Base64, with the law IsUrlSafe of what it
-- encodes and decodes), hyper's header map (the record HeaderMap, with the laws IsHeaderMap between its
-- observations), what the code asks of parsed IP and socket addresses (the record Addresses), the
-- functions of http, sha2 and base64 that the client uses (the record Libraries, with the law IsSha256),
-- the registry and the clock (the record World), serde_json (the record Documents, with the law IsJson
-- between the writing and the reading of a manifest), and the file system below the root of a publication
-- (the record FileSystem, with the law IsTree). The file system does not change during a publication.
--
-- Not modelled: Publication::write_oci_layout, which writes files; autoindex_cli.rs, which runs the oras
-- process; the accept loop and the shutdown of the server; OciClient::new, which builds the transport;
-- limited_body; Debug implementations and most of Display. They speak to sockets, processes and files.
pub mod Base
pub mod Protocols
pub mod Repository
pub mod Routing
pub mod Http
pub mod Inbound
pub mod Autoindex
pub mod Gateway
pub mod Tokens
pub mod Cli
pub mod Config
pub mod Libraries
pub mod MediaTypes
pub mod Queries
pub mod Proxy
pub mod Oci
pub mod Publisher
pub mod Origin
pub mod Challenges
pub mod RetryAfter
pub mod Errors
mod Tests
