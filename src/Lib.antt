-- ===== src/Lib.antt =====
-- The bootstrap action for Postman: a run decides what the branch it runs on may write, acquires the
-- definition of an API, brings the files of a specification in Spec Hub in line with it, and picks the
-- workspace that the repository belongs to. This library models the parts that make these decisions
-- and shows what they guarantee. Paths are from the repository's root.
--
-- Base holds what the models share. Texts are lists of UTF-16 code units over the native numbers, as
-- JavaScript's strings are (Base/Strings); a function that throws an error with a code returns a Result
-- (Base/Contract); JSON values are a data type and JSON.stringify is written out (Base/Json);
-- Array.prototype.sort is a stable insertion sort (Base/Sorting); Base/Finding has the lemmas on lists
-- whose members have distinct keys, Base/Tables checks a test of every number of 8 or 16 bits, and
-- Base/Retry is the interface of the retry function that the code takes from another package.
--
-- Repo/Branch is src/lib/repo/branch-decision.ts and decideBranchTier of src/index.ts.
--   Identity: resolveBranchIdentity, one function per provider; Identity/Laws.
--   Channels: parseChannelRules and matchChannel; Channels/Globs is about patterns; Channels/Laws.
--   Decision: resolveBranchDecision; Decision/Tiers describes the tiers as a relation of their own,
--     Decision/Canonical the canonical branch.
--   Decide: parseBranchDecision, resolveEffectiveBranchDecision, decideBranchTier; Decide/Laws.
--   Slug: buildBranchSlug and the names of assets; Slug/Runs, Slug/Edges and Slug/Laws.
--   Marker: renderAssetMarker and parseAssetMarker; Marker/Scan and Marker/Laws.
--
-- Repo/Context is src/lib/repo/context.ts; Context/Laws.
--
-- Spec is what concerns definitions.
--   Bundle: src/lib/spec/definition-bundle.ts, paths, files and createDefinitionBundle; Bundle/Paths
--     and Bundle/Laws. Bundle/Inventory is parseDefinitionInventoryJson; Inventory/Laws.
--   Reconcile: src/lib/postman/spec-file-reconcile.ts. Plan is planSpecFileReconcile, Ordering is
--     orderPerFileReconcileOps, Receipt the receipt of the live probes, Gateway the answers of the
--     gateway, Convert bundles and snapshots; Ordering/Laws and Ordering/Carried; Convert/Read is about
--     the files that are read back, with Convert/Laws. Plan/Made, Plan/Parts and Plan/Rounds say what is
--     in the lists of a plan, Plan/Laws what the plan makes of the cloud.
--   Fetch: src/lib/spec/safe-spec-fetch.ts, safeFetchText and what it calls; Fetch/Laws.
--     Fetch/Ipv4 is parseIPv4 and isBlockedIPv4; Ipv4/Ranges and Ipv4/Bytes. Fetch/Ipv6 is
--     normalizeIpAddress, isBlockedIPv6 and isBlockedAddress; Ipv6/Prefixes and Ipv6/Embedded.
--     Fetch/Public puts the fetch and the tests of addresses together.
--   Delta: src/lib/spec/collection-delta.ts. Identities is normalizeDesiredStructuralIdentities; Index is
--     indexCollection, with Index/Keys; Changes compares two versions of an entity; Plan is
--     planCollectionDelta, with Plan/Laws and Plan/Carried.
--
-- Postman is what concerns the Postman side of a run.
--   GitUrl: src/lib/postman/git-url.ts.
--   CreateReconciliation: src/lib/postman/create-reconciliation.ts; CreateReconciliation/Laws.
--   PmakDiagnostics: src/lib/postman/pmak-diagnostics.ts.
--   Token: src/lib/postman/token-provider.ts, with Token/Laws, Token/Requests and Token/Rejected.
--     Token/Flight is AccessTokenProvider.refresh and mintAccessTokenIfNeeded; Flight/Laws,
--     Flight/Answers and Flight/Needed.
--   Workspace: src/lib/postman/workspace-selection.ts; Workspace/Laws.
--
-- Secrets is src/lib/secrets.ts: redactSecrets and what it calls, with Secrets/Laws; the masker that
--   grows, with Secrets/Masker; sanitizeHeaders, in Secrets/Headers. Secrets/Trim is about trim.
--
-- State is passed explicitly: the loops over maps and sets carry them as lists in order of insertion, a
-- fetch returns the requests that it sent with the budget that it leaves, and an attempt to mint a token
-- returns the provider that it leaves, with the requests that were sent. The mint that callers share is
-- a step relation, with a step for each turn of the event loop. The loop over redirects recurses on the
-- number of redirects that are left, and retry has the number of attempts, so no fuel is needed; all
-- other loops recurse on their lists or trees.
--
-- Parameters stand for what the repository does not contain: JSON.parse, Unicode normalisation, lower
-- and upper case, localeCompare, SHA-256, UTF-8, new URL, isIP, environment variables, the event file,
-- DNS, the transport and the network. The retry function of @postman-cs/automation-core is an interface
-- with its documented behaviour. Of the collection delta, the digest of a payload is a parameter as
-- well: it belongs to a part that is not modelled. Messages of warnings, and most messages of errors,
-- are left out; the codes of errors are kept.
--
-- Not modelled: the clients of the HTTP services and the orchestration of a run, which are mostly input
-- and output; the generators of collections and tests; the other protocols; the identity behind a
-- credential, and the local artifacts of collections.
mod Base
pub mod Repo
pub mod Secrets
pub mod Spec
pub mod Postman
