-- ===== src/Lib.antt =====
-- The backend of the paymaster: a service that decides whether to sponsor an ERC-4337 user operation
-- and signs its decision.
--
-- How the parts interact. A request (backend/src/api/dto/sponsorRequest.ts) reaches the service
-- (backend/src/api/sponsor/sponsor.service.ts), which looks up the chain and the policy, packs the
-- operation, prices it at its worst, asks the tenant's subscription and balance, has the policy
-- engine evaluate the rules over the quota store, has the signature engine attest, records the row,
-- and gives back what was reserved when any of this fails. Payments of subscriptions come in beside
-- it: they are verified on the chain and recorded once.
--
-- Which file models which part:
--   UserOperation     backend/src/domain/userOperation.ts: the packed operation, and its words
--   Gas               backend/src/chain/gas.ts: calculateMaxCost
--   CallData          backend/src/policy/callData.ts: decodeCallTargets
--   Fault             the classes of the errors that the service throws
--   Policy.Context    backend/src/policy/context.ts, rule.ts: contexts, decisions, rules
--   Policy.Engine     backend/src/policy/engine.ts: orderRules, evaluate, releaseReservations; below
--                     it the order, the decision, what a denial gives back, what a release undoes
--   Policy.Quota      backend/src/policy/quota: windows and keys, the port and its promises, the store
--                     in memory with its eviction, and the store on Redis with its scripts
--   Policy.Rules      backend/src/policy/rules: access lists, token ownership, quotas; below
--                     QuotaRule what it does to the counters, what a spend cap lets through, and
--                     whose counter a key names
--   Policy.Source     backend/src/policy/policySource.ts: reload and get
--   Policy.Factory    backend/src/policy/policyFactory.ts: rules from their stored configs
--   Policy.Repository backend/src/db/postgresPolicyRepository.ts: policies read and written
--   Policy.Ceilings   backend/src/policy/planCeilings.ts, with the plans of backend/src/billing/plans.ts
--   Signature         backend/src/signature: layouts, codec, typed data, attestation
--   Billing           backend/src/billing/subscription.ts, paymentVerifier.ts and
--                     backend/src/db/subscriptionRepository.ts
--   Chain             backend/src/chain/chainRegistry.ts, tenantBalance.ts
--   Security          backend/src/security/circuitBreaker.ts, ipThrottle.ts
--   Auth              backend/src/auth/permissions.ts, apiKey.ts, authenticator.ts, jwt.ts,
--                     tenantSession.ts, inMemoryApiKeyStore.ts, backend/src/api/guards and backend/src/db/scope.ts, tenantRepository.ts
--   Admin             backend/src/api/admin/admin.service.ts: the keys, and what they can come to
--                     grant; the payments that a customer claims
--   Sponsor           backend/src/api/sponsor and backend/src/api/dto: the request, the ports, the service
--   Reconciliation    backend/src/reconciliation with the tables of backend/src/db: the block window of
--                     a tick, the sponsorships' rows and their claims, what is given back, the
--                     tenants' ledger and its drift
--   Viem              the library's functions, a parameter with the laws that the codec relies on
--   Examples          concrete runs, with byte lists for viem
--
-- How state and operations correspond. An object that changes is a value that each operation takes
-- and returns, under the operation's name in this spelling (tryConsume is try_consume). A method that
-- may throw returns a Result beside the state, which keeps what was written before the throw. The
-- rules of a policy share a world W, which the in-memory store makes concrete. A `Map` is a list of
-- pairs in insertion order (Common.JsMap), a text is a list of code units (Common.Text), an amount
-- in wei is a natural number without bound, as a bigint is. An asynchronous method is its whole run:
-- what other requests do between two of its calls is not part of a run, and the statements on
-- sequences of requests take them one after the other.
--
-- There is no fuel in the models of the code. `decimal` divides by ten at most as often as its
-- number has units, and each division shortens it.
--
-- Not modelled: what is only observed (metrics, traces, reasons of denials), the reading of shapes by
-- zod, RPC calls, SQL but for the tables whose rows the models keep, the HTTP layer, the key
-- management clients, the identity provider, the contracts and the web applications.
mod Common
pub mod Fault
pub mod Viem
pub mod UserOperation
pub mod Gas
pub mod Policy
pub mod CallData
pub mod Signature
pub mod Billing
pub mod Chain
pub mod Sponsor
pub mod Security
pub mod Auth
pub mod Admin
pub mod Reconciliation
mod Examples
