-- ===== src/Lib.antt =====
-- The Proof-of-Distribution engine of the protocol, and the guards of its settlement venue: the
-- price guard, the check of a quote's call, and the reconciliation with the router registry.
--
-- The engine (packages/shared/src/proof-of-distribution) takes one distribution cycle as a raw
-- fixture: configuration, balances at the start of the epoch, confirmed transfers, locks,
-- eligibility records, exclusions and the assets that were acquired. It validates the fixture,
-- weighs every wallet by its time-weighted balance with bonuses for locked amounts, admits the
-- eligible wallets, splits each asset among them with floors, builds a Merkle tree of the
-- entitlements, checks every proof with two verifiers, and reconciles the books. Each part is a
-- pure function, a `throw` with a code is `err`, and the parts meet in runProofOfDistribution:
--   Pod.Fault        errors.ts: the codes, and the result of code that may throw them
--   Pod.Numeric      numeric.ts: decimal strings and floor division; Numeric.Decimal their laws
--   Pod.Address      address.ts, Pod.Epoch epoch.ts, Pod.Model model.ts and constants.ts
--   Pod.Transfers    twab.ts, canonicalizeTransfers: deduplication and order of the logs;
--                    Transfers.Places is what its tests of two logs decide
--   Pod.Weights      twab.ts, computeWeights: breakpoints, the sweep over time, the weights;
--                    Weights.Tiers has the active locks, Weights.Balances, Split and Effective
--                    the laws of transfers, of the swept sums and of the weights; Seconds is a sum
--                    over seconds and Flow the balance at a second, the reference of the sweep;
--                    Breaks and Schedule have the breakpoints, Steady the locks between them,
--                    Accrual one interval, Integral, Summed and Average the sweep as a whole,
--                    Applied the transfers that it counts
--   Pod.Eligibility  eligibility.ts, Pod.Allocation allocation.ts, Pod.Reconciliation
--                    reconciliation.ts, Pod.Merkle merkle.ts and viem-verify.ts; Merkle.Claims is
--                    the order and the keys of entitlements
--   Pod.Schema       schemas.ts, Pod.Validate validate.ts, Pod.Pipeline pipeline.ts
-- The price guard (packages/rialto/src/price-guard.ts) decides whether an acquisition's least
-- output is acceptable against two price feeds; Rialto.PriceGuard has the function and its
-- checks, PriceGuard.Feeds, Floor and Bounds what an accepted acquisition satisfies.
-- The check of a quote's call (packages/rialto/src/quote-structural.ts) admits a call only with an
-- approved selector and with arguments bound to the context: Rialto.QuoteExecution, with
-- QuoteExecution.Approved and Bound for its laws. The reconciliation of a quote's target with the
-- router registry (packages/rialto/src/registry-structural.ts) is Rialto.Registry, with
-- Registry.Reconciled for when it succeeds; Rialto.Boundary is the classification of
-- packages/rialto/src/boundary-status.ts.
--
-- The guarded settlement (packages/rialto/src/guarded-settlement.ts) evaluates an intent against a
-- policy, an observation of the registry, a price and a replay store, and makes a plan where
-- nothing fails. Rialto.Settlement has the records; Settlement.Digest computeIntentDigest and
-- buildIntent; Settlement.Store the replay store; Settlement.Guards each guard with its failures;
-- Settlement.Evaluation evaluateGuardedSettlement, computeRemainingGates and the candidate policy,
-- with Evaluation.Passed, Observed, Quoted and Ready for when each guard and all pass, Priced for
-- the price bound, Candidate for the gates, and History for sequences of settlements, in which each
-- ready intent is marked as consumed (step CONSUME_INTENT of the plan) and others may mark too;
-- Settlement.Opaque is validateOpaqueQuoteForIntent.
--
-- The canary preflight (packages/rialto/src/canary-preflight.ts) reads the chain through an injected
-- reader and reports whether the build is ready while execution stays locked. Rialto.Preflight has
-- the records, Preflight.Checks each check with what a failed read leaves, Preflight.Evaluation
-- evaluateCanaryReadiness; Preflight.Passed, Parts, Router, Chain and Ready have when each check and all
-- pass, Preflight.Thrown when the evaluation itself throws, Raised and Honest what its reports keep to.
--
-- Shared: Prelude (library names, tests, list functions, fallible code), Text (strings as code
-- units), Order (sorting), Dict (`Map` and `Set` as association lists in insertion order),
-- Integer (bigint where it may be negative). Tests and Samples run the model on concrete data.
--
-- Numbers: the code computes on bigint, without bounds, so naturals and integers are exact; where
-- the code subtracts, the model subtracts integers or checks first. Where the settlement compares
-- JavaScript numbers that nothing has checked, they are whole or NaN (Integer.Number), and fractions
-- and infinities are left out; other numbers are whole, as those of the chain and the clock are.
-- Texts are lowered as ASCII, and viem's functions are taken as total. Every loop runs over a list
-- and is structural recursion; no fuel is used.
--
-- Parameters: the tree of @openzeppelin/merkle-tree (Merkle.TreePackage), and viem's hashing,
-- leaf encoding, and hex functions (Merkle.HashPackage), and its decoding and encoding of call
-- arguments (QuoteExecution.AbiPackage); SHA-256,
-- keccak256 and `Date.parse` in the settlement; the chain reader, and viem's coding of calls
-- (Preflight.Viem). What a theorem needs of them is a hypothesis of it.
--
-- Not modelled: the zod parser's check of the shape of an unknown value, which the type of a raw
-- fixture stands for; texts of messages; serialize.ts, artifacts.ts and independent-verify.ts,
-- which render and re-read what is computed here; replayQex1Evidence, which reads an untyped file, and
-- the ABI encoding of computeOnchainIntentDigest; the web application, the indexer, the other
-- modules of packages/rialto and the contracts.
pub mod Prelude
pub mod Text
pub mod Order
pub mod Dict
pub mod Integer
pub mod Pod
pub mod Rialto
