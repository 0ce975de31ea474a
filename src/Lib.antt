-- ===== src/Lib.antt =====
-- authenik8-core, an authentication library for Express applications over Redis.
--
-- The program is a set of services: access, refresh and guest tokens (src/auth/), session risk
-- (src/risk/), authorization (src/authorization/), agents (src/agent/), OAuth log-in (src/oauth/),
-- limits by address (src/security/) and an audit dispatcher (src/audit/), wired together by
-- src/createAuthenik8.ts. Every service is given its store, the audit emitter and, for refresh and
-- agents, the risk reporter. A refresh asks the risk service whether the session is quarantined,
-- takes a lock, compares the presented token with the stored fingerprint, and rotates it or
-- reports the replay. An OAuth log-in asks the identity engine, which reads and changes accounts
-- through an adapter and calls the token service.
--
-- Conventions. A call that is awaited takes the state `S` of the world and gives a result or a
-- thrown error, with the new state: `M S A` of Common.Effects.Async, with `try_catch`,
-- `try_finally`, `branch` (an `if` whose branches await) and `if_present` (a method or a service
-- that may be absent). Code that only computes and throws is in `Result`. Strings are lists of
-- UTF-16 code units (Common.Text), values of type `unknown` are trees (Common.Value), numbers are
-- natural.
--
-- The files and the code:
--   Common            shared notation, lists, texts, dictionaries, values, effects and their
--                     rules: Hoare has what results satisfy (`Yields`) and what relation of states
--                     a call keeps also when it throws (`Keeps`), Triples has conditions before
--                     and after a return (`Ensures`), Returns has what makes a call return
--                     (`Returns`).
--   Audit             src/audit/types.ts: the events and the emitter. Dispatcher and its child
--                     Delivery are src/audit/auditDispatcher.ts: `clone_audit_value` is
--                     `cloneAuditValue` with the depths and nodes that are left, `deliver` and
--                     `notify` are the two calls of `Promise.allSettled`, one call after another;
--                     Bounds has how large copied metadata can be.
--   Redis             src/redis/keyNamespace.ts: `validateRedisKeyPrefix`,
--                     `resolveRedisKeyPrefix`, `redisKey`.
--   Oauth.Validation  src/oauth/identityValidation.ts and src/utility/safeString.ts.
--   Oauth.Policy      src/oauth/brain/identityPolicy.ts.
--   Oauth.Engine      src/oauth/brain/identityEngine.ts over any adapter: `resolve_oauth` is
--                     `resolveOAuth`. Results has what its results mean, Frames which calls it
--                     makes.
--   Oauth.Memory      src/oauth/adapters/memoryAdapter.ts: the map of users is a list of pairs,
--                     the identifiers come from a supply. Outcomes has the cases of each
--                     operation, Invariant the consistency of the store.
--   Oauth.RedisAdapter  src/oauth/adapters/redisAdapter.ts: Finds has the three ways to find a user,
--                     Scripts the two scripts and Changes `createUser` and `linkProvider`; Index and
--                     Claims have what becomes of the indexes, Contention when the loop ends.
--   Oauth.Accounts    the engine over the memory adapter.
--   Risk              src/risk/types.ts, the settings and the checks of
--                     src/risk/sessionRiskService.ts; Risk.States has the stored states and
--                     Risk.Service the operations over any `SessionRiskStore`.
--   Auth              src/auth/tokenFingerprint.ts and src/utility/lockHelper.ts.
--   Auth.Sessions     src/auth/sessionStore.ts; the class is in Auth.Sessions.Store, and
--                     Store.Written has what is found of a stored session.
--   Auth.Refresh      src/auth/refreshService.ts: the class and its keys, tokens and families;
--                     Flow has `refresh` and `revokeSession`; Laws has when it refuses, Rotation
--                     what it leaves in the token store, Liveness when it returns, and Issue has
--                     `generateRefreshToken` and `revokeAllSessions`.
--   Auth.Jwk          src/auth/jwk.ts: tokens, lifetimes and keys; Config has the checks of keys and
--                     KeyRing `JwtKeyRing` and `verifyAccessTokenWithJwks`.
--   Auth.Jwt          src/auth/jwtAuth.ts: `JWTService`, with `authenticateJWT` in Authenticate.
--   Auth.Bearer       the header `authorization` of src/auth/guestModeService.ts and of
--                     src/auth/jwtAuth.ts.
--   Authorization     src/authorization/authorizationService.ts, with the request of its middleware:
--                     `require` is `requireRole`, `requirePermission` and `requireScope`; Claims
--                     has what the claims of a user say. Admin is
--                     src/middleware/adminService.ts and Guest src/auth/guestModeService.ts.
--   Oauth.States      src/oauth/state.ts, the store of src/oauth/core.ts and src/oauth/callback.ts.
--   Agent             src/agent/types.ts, and the scopes and identifiers of
--                     src/agent/agentIdentity.ts; Agent.Claims has `claimsAreValid` and
--                     Agent.Service the class, with the tokens in Issue and `verifyToken` in
--                     Verify; Signed has what tokens carry, Granted and Granting for whom they
--                     are, Revoked what a revocation stops, and Keys tells marks from
--                     sessions.
--   Storage           src/storage/RedisTokenStore.ts: Storage.TokenStore has its methods.
--   Security.ClientIp src/security/requestContext.ts over the library ip-address.
--
-- Parameters. What is no code of the repository is an argument: the Redis commands, `JSON`, the
-- calendar, `Buffer.from`, SHA-256, random UUIDs, `toLowerCase` and the library jose. The Lua
-- scripts are their Redis calls in one step, since Redis runs them without interruption; where
-- it matters, the commands and the calls of a script stand apart, because other clients may act
-- at a command. The refresh service and the agent service have the calls of the key ring as
-- arguments, the access tokens the key ring itself. The theorems name what they rely on of
-- these: `IsTokenStore`, `IsDigest` and `IsHealthy` for a refresh, `IsRevocable` for a
-- revocation, `CarriesUse` for jose, `HasSessions` for access tokens, `HasHashes` for sessions,
-- `IsRegistry`, `SignsClaims`, `Delegates` and `KeepsRevocations` for agents, `NamesTenants` for
-- the resolver of tenants, `IsIdentityRedis` and `IsAlone` for the Redis adapter, `IsStateRedis`
-- and `KeepsState` for the state of a log-in, `LeavesMarks` for the sinks of the audit,
-- `NeverRepeats` for the UUIDs and `IsNormalizing` for lower case.
--
-- Bounds. Every loop of the modelled code goes over a list or a value, but that of `linkProvider`
-- over Redis, which counts its attempts down from 5 as the code does. The calls of a batch of
-- `Promise.all` are made one after the other, as the store answers them, all of them even where
-- one fails. Limits of length and of machine numbers (2^53 - 1) are those of the code.
--
-- Not modelled: the constructors that only set fields; `generateSigningJwk` and remote keys of
-- src/auth/jwk.ts, which only call the library jose and the network; limits by address
-- (src/security/limiter.ts, src/security/ipService.ts); `createOAuth`; the calls of OAuth
-- providers over the network; the wiring of the services, which is input and output only.
pub mod Agent
pub mod Audit
pub mod Auth
pub mod Authorization
pub mod Common
pub mod Oauth
pub mod Redis
pub mod Risk
pub mod Security
pub mod Storage
