-- ===== src/Lib.antt =====
-- The Salesforce secrets engine for Vault: its handlers, its token cache and its client, as
-- functions over a platform, with the theorems that make them correct.
--
-- The engine keeps three kinds of entries in Vault's storage: configurations (config/), roles
-- (role/) and one cached access token for each role (cache/). A read of creds/<name> finds the role
-- and its configuration, serves the cached token while it is fresh, and else mints one at the token
-- endpoint under a lock of the role. Writes of configurations and roles check what they store and
-- drop the cached tokens that it makes stale. Rotation mints anew. A rotation and the end of a lease
-- drop the cached token, and revoke it at Salesforce if the role says so.
--
-- Which file models which part:
--   Config, Config/Handlers      path_config.go: the record, its endpoints, its redacted view, and
--                                the handlers pathConfigWrite, -Read, -Delete, -List
--   Role, Role/Handlers          path_roles.go: the record, validateRole and the handlers
--   HostCheck                    hostcheck.go: validateTokenHost, hostOf
--   Token                        client.go tokenResult, cache.go cachedToken and fresh,
--                                path_creds.go computeExpiry
--   Storage                      getConfig, getRole, and cache.go without the revocation
--   Jwt                          jwt.go: the claims, the parsed key with its memo, the signature
--   Client                       client.go: one request, the retries, the errors, the revocation
--   Creds                        path_creds.go: pathCredsRead, issueToken, mintAndCache
--   Creds/Moves                  issueToken and mintAndCache cut at their calls on what is shared
--   Burst                        several requests for a token of one role at once, and a write of
--                                the configuration (Burst/Rewrite) between their moves
--   Lease                        path_rotate.go, secret_access_token.go, and the revocation of
--                                cache.go
--   Info                         path_info.go: pathInfoRead
--   Engine                       backend.go: the requests that the paths and the secret serve
--   Backend, Backend/Tables      backend.go: newBackend, Factory; the path tables pathInfo,
--                                pathConfig, pathRoles, pathCreds, pathRotate, and the secret type
--   Backend/Routes               docs/SPECIFICATION.md: the routes that the tables are held against
--   Main                         cmd/vault-plugin-secrets-salesforce/main.go
--   MockServer                   internal/sftest/mock_server.go: the fake endpoints of the tests, and
--                                the engine against them (MockServer/Serving and Revoking say how they
--                                meet)
-- Platform is the record of what these call and do not implement (Vault's storage, locks and
-- logger, the clock, the network, and parts of Go's libraries), Platform/Laws says what the proofs
-- assume of it, and Platform/Memory is an instance that meets it. Errors and Action are Go's errors
-- and the state-passing code with them: a failure keeps what was done before it. Common holds the
-- Boolean tests, signed integers and text functions. Tests has runs and the theorems at concrete
-- data. The other modules are named for what they prove.
--
-- Integers and bounds: a duration is an int64 of nanoseconds; conversion from seconds and negation
-- wrap around as Go's do. An instant is an integer of nanoseconds from the Unix epoch, without
-- bound. The retry loop is recursion on the rounds that are left, two after the first, which is
-- tokenRetryMaxAttempts. No definition takes fuel.
--
-- The SDK's framework package is the record Framework: what a pattern captures and what a handler
-- gets of a field are its own, with the laws of Framework/Laws, and Framework/Plain is an instance
-- that meets them. The tables are data; any path of them that matches may serve a request.
--
-- A call of `client.Do` is one exchange (Platform/Exchanges): the client has no CheckRedirect, so it
-- follows redirects, to at most ten requests, and which requests an answer redirects to is a
-- parameter of the theorems on what is sent.
--
-- Not modelled: descriptions and help texts of paths and fields, the set-up that the SDK does, and
-- the listener of the fake endpoints. A handler that is a function runs to its end by itself; what
-- others do while it waits for a mint lock is the platform's lock call, of which nothing is assumed
-- but what a theorem names. In a burst the requests share the cached token and the lock of the
-- role, and each call on them is one move. Other requests hold the lock and drop the cached token
-- at any time, and a rotation puts its own in place of it: its mint is not counted, and what it
-- replaces counts as lost. A load gives the cached token or fails, and a put or a delete that fails
-- may have been done. The counts of tokens that were given and lost are not in the code.
-- The form is a list of pairs, not its URL encoding. The text of an error is its format and its
-- arguments.
pub mod Common
pub mod Errors
pub mod Framework
pub mod Config
pub mod Role
pub mod Token
pub mod Platform
pub mod Action
pub mod Storage
pub mod HostCheck
pub mod Jwt
pub mod Client
pub mod Creds
pub mod Lease
pub mod Burst
pub mod MockServer
pub mod Info
pub mod Engine
pub mod Backend
pub mod Main
mod Tests
