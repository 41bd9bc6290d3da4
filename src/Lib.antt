-- ===== src/Lib.antt =====
-- A single sign-on gateway in front of n8n: it authenticates a browser at an OpenID Connect
-- provider, keeps a session, logs the user in to n8n with a credential from Vault, and forwards
-- requests to n8n.
--
-- The parts, and the files of the repository that they model:
--   Base      strings as lists of bytes, package strings, Go maps, and shared lemmas
--   Url       net/url: Parse and PathUnescape
--   Security  internal/security: cookie.go in Cookie, Rewrite and Sanitize, return_url.go in
--             ReturnUrl, csrf.go and random.go in Tokens
--   Routes    internal/httpserver/routes.go, with path.Clean on rooted paths in Routes/Paths
--   Session   internal/session: store.go in Session and Session/Redis, memory.go in Session/Memory,
--             and the promise of the interface Store in Session/Spec
--   Vault     internal/vault: credential_store.go in Vault, Vault/Kv and Vault/Paths, memory.go in
--             Vault/Memory; NewStore and the renewal of the token in Vault/Start
--   N8n       internal/n8n/client.go, and fake.go in N8n/Fake
--   Logging   internal/logging/logging.go
--   Oidc      internal/oidc/client.go, and fake.go in Oidc/Fake
--   Proxy     internal/proxy/reverse_proxy.go
--   Config    internal/config/config.go, with strconv.ParseInt in Base/Int
--   Server    internal/httpserver/server.go: ServeHTTP and serveInternal in Serve, the handlers in
--             Auth, Link, Bridge and Ready, sessions and tokens in Sessions, return targets in
--             Targets, answers and errors in Reply, forwarded headers in Forwarding, New and
--             newMetrics in New
--   Gateway   cmd/n8n-proxy/main.go
--
-- A definition has the name of the function that it models, in another spelling: handleLinkPost is
-- handle_link_post. A handler is a function on a state: the response that is written, the metrics,
-- and the world of the dependencies. The server calls the stores, the identity provider and n8n
-- through the records Deps, SessionStore, CredentialStore and N8nClient, which are the interfaces of
-- the program; Session/Redis, Session/Memory, Vault/Kv, Vault/Memory and N8n fill them.
--
-- Parameters are what the program only calls: the authority part of net/url, net's addresses, the
-- commands of Redis and Vault, one HTTP exchange, JSON, SHA-256, the clock and the random source.
-- A request is what net/http has read of it. The fuel of trim_space is the length of the text, since
-- every round drops a byte.
--
-- A Dict of headers holds one value for each name. Of golang.org/x/oauth2 and go-oidc the model has the
-- calls that the program makes, of httputil.ReverseProxy one round trip and what it does to the headers
-- behind the director; time.ParseDuration is a parameter. The fuel of fields_loop is one more than the
-- length of the text, and every round takes a byte at least.
--
-- Not modelled: log lines, panics, the durations of requests, the reading of bodies, the template of the
-- link page, the lives of the keys of Redis, TLS, and the goroutines of main but
-- for the choice between a signal and the end of the server. A duration below zero in the configuration
-- counts as zero in Server/New.
pub mod Base
pub mod Url
pub mod Security
pub mod Routes
pub mod Session
pub mod Vault
pub mod N8n
pub mod Logging
pub mod Oidc
pub mod Proxy
pub mod Config
pub mod Server
pub mod Gateway
