-- ===== src/Lib.antt =====
-- kubauth: a verification library for the authentication services of this repository.
--
-- The repository has identity providers (users kept as Kubernetes resources, cmd/ucrd; LDAP,
-- cmd/ldap), a provider that merges the answers of others (cmd/merger), one that records logins
-- (cmd/audit), and an OIDC server (cmd/oidc) that asks one of them who a user is and hands out
-- tokens through the fosite library. All providers share an HTTP handler with a brute force
-- protector (internal/handlers). A claim set travels through all of them and is merged on its way.
--
-- Base: natural numbers, lists, texts, association lists, 64-bit integers, numerals.
--   A Go map is an association list (`Dict`, and `Claims` for map[string]interface{}); where a
--   theorem needs that each key stands once, it says so. A range over a map is in list order.
-- Misc: internal/misc.
--   Slices: misc.go and mergeStringSlicesDeduped. Paths: adjustpath.go. Claims: merge.go, MergeMaps
--   as `merge_maps` and NormalizeStringArray as `normalize_string_array`. ExpandEnv: expandenv.go,
--   on bytes, the loop over positions as `scan`; Grammar is the same expansion without positions.
--   Claims.Json is what encoding/json gives back of claims that a session keeps between two
--   requests (oidc/sessioncodec): lists of texts as slices, numbers rounded to a float64.
-- Proto: internal/proto, the data types. A Go pair of a value and an error is a `Result`.
-- Protector: internal/handlers/protector/bfa.go.
--   EntryForLogin, EntryForToken, delayFromFailureCount, clean and the locked part of failure
--   are functions on `Protector`; pointers to a loginState are addresses. Steps makes failure a
--   step relation: a goroutine, which carries the call that it was started for, is before its
--   sleep or in it, and goroutines and the cleaner interleave freely. int64 arithmetic wraps
--   (Base.Int). Times are natural numbers.
-- Handlers: internal/handlers/identity.go and internal/handlers/validator as `serve_http`.
-- Merger: cmd/merger. Provider is provider.go, with fmt.Sprintf and the exchange as arguments;
--   Authenticator is authenticator.go.
-- Ucrd: cmd/ucrd/authenticator/crdAuthenticator.go, with the Kubernetes client, the JSON decoder and
--   bcrypt as the record `Cluster`.
-- Ldap: cmd/ldap/authenticator and cmd/ldap/config. Config is New, with the file system, the secrets
--   and the certificate pool as the record `Surroundings`. Authenticator is authenticate.go on a
--   directory whose answers may depend on all calls so far: `Conn` threads their trace and stops at
--   an error.
-- Audit: cmd/audit, the record of a login attempt and the cleaner, on a map of records.
-- Oidc: cmd/oidc.
--   Client: oidcstorage/kubauthclient.go. Storage: oidcstorage/memory.go, one function per method on
--   the record `MemoryStore`; a requester, an upstream and a key are parameters. Storage.Steps
--   lists the operations that write as `Op` and runs sequences of them: each is one step under
--   its mutexes, and RotateRefreshToken, which takes two, is one step too; the race of
--   RevokeRefreshToken on its map is outside the model. HttpProvider: authenticator/httpprovider.
--   Upstream: PerformRenaming and CleanupClaims of upstreams/upstream.go. UpstreamLogin:
--   oidcserver/handle-upstream-callback.go on the login and SSO sessions; `check` is the handler up
--   to the claims, `admit` what follows. SessionStore: sessionstore/kubessostore.go and the cleaner.
--   `complete` of UpstreamLogin stands for completeUpstreamAuthorize, which Authorize models with
--   fositepatch/scopehandler.go and newSession; the azp claim that newSession adds to the claims of
--   a user in the SSO session is in Login and left out of the callback. PasswordGrant:
--   fositepatch/flow_resource_owner.go, where Has and HasOneOf of the library's arguments, which
--   do not tell upper from lower case, are parameters. LoginPage: oidcserver/display-login.go. Login:
--   handle-login.go and handle-logout.go. UpstreamGo and UpstreamWelcome: the handlers of these
--   names. SigningKey: ensureJwtSigningKey. UserInfo: handle-user-info.go. Index: handle-index.go.
--   Upstream.Provider: construction and settings of an upstream. ClientController and
--   UpstreamController: controllers/, a reconciliation as a function on the resource, the store and
--   the count of status errors, given the outcome of every call that it makes; the hashes of
--   bcrypt, which is salted, are of the run and the place of the secret.
--
-- Every loop is structural recursion over the slice or map it ranges over. Only `float64` has fuel,
-- for the step between two floats: 11 doublings are enough for integers of 64 bits.
--
-- Not modelled: HTTP, TLS, JSON as text, logging, the command line, and the calls of Kubernetes, LDAP and
-- fosite, which are input and output or other people's code; and so far the token handler and
-- the webhooks.
mod Base
pub mod Misc
pub mod Proto
pub mod Protector
pub mod Merger
pub mod Ldap
pub mod Oidc
pub mod Ucrd
pub mod Audit
pub mod Handlers
