-- ===== src/Lib.antt =====
-- sitebin, the part of the backend that decides what a site's addresses answer, what is taken in as
-- its files and forms and held for abuse, who may lock, unlock and delete a site, and when it expires.
-- The filesystem is the database there: a site is a folder with a meta.json, and every operation is a
-- read, a change and an atomic write of that file.
--
-- Parts and files:
-- Meta: the settings in meta.json (internal/store/meta.go and the types of its fields).
-- DomainName: custom domains with an optional path in normal form (internal/store/address.go,
--   normalizeDomain of domains.go, overlaps of zones.go).
-- Routing: what is in effect of the stored rules (the methods of Meta in internal/store/redirects.go
--   and addresses.go): DomainRedirect, ViewRule, AddressRule, LabelRule.
-- Redirects: their setters in internal/store/redirects.go, and dropAddressRules.
-- Addresses: the ports of a container site and their labels (internal/store/addresses.go).
-- Domains: claims, attachment and removal of domains (internal/store/domains.go, domainverify.go).
--   Domains/Reachable takes the writes of these four parts as the steps of one relation.
-- Store: Update and the deletions of internal/store/store.go, writeMeta of meta.go there.
-- OneLine: CleanLockReason of internal/store/lock.go and Clean of internal/abuse/scan.go.
-- Guard: the verdict on scanned files, and its review (internal/store/guard.go).
-- Lock: the operator's lock and its evidence hold (internal/store/lock.go); Lock/Clock takes what
--   Lock and Guard do to a site as the acts of one sequence.
-- Retention: the purge of locked sites (internal/store/retention.go), over Lock and Store.
-- Expiry: the sliding renewal and the tier's caps (internal/store/expiry.go), over Store.
-- Licence: the licence's status (ee/licensing/state.go and the payloads of licensing.go); Licence/Key
--   the verification of a key (Verify and parseRoots of licensing.go).
-- HostShare: who vouches for an address on a shared host (internal/store/hostshare.go).
-- Sweep: ReconcileDomains of internal/store/domainverify.go, over Domains and HostShare.
-- Zones: the zones that accounts claim and prove (internal/store/zones.go); Zones/Lookup the one that
--   a domain lies in (accountZoneFor there), Zones/Gate the gate of a new domain (refuseForeignZone).
-- Tags: tags and names of sites (internal/store/tags.go, sitename.go).
-- Token: signed tokens (internal/auth/token.go); Session (ee/session/session.go) and FormLinks
--   (internal/forms/links.go) are its clients. Cache: verified credentials (internal/auth/cache.go).
-- Offers: offers of sites and invitations (ee/ownership/store.go, ee/ownership_loop.go).
-- Limits: whether sites that are taken over fit the account's plan (ee/limitscheck.go).
-- PktLine: git's length-prefixed lines (internal/gitrepo/pktline.go).
-- Funnel: funnels of visitor-days (internal/analytics/funnel.go).
-- Scan: the match of an uploaded file, chunk by chunk (internal/abuse/scan.go); Scan/Decode what is
--   hidden behind an encoding (decode.go there), Scan/Verdict the result. Rules: the rules and their
--   compilation, the destinations of reports (rules.go there); Rules/Loader their file (loader.go).
-- Forms: the reading of a form post (internal/forms/parse.go), Forms/Filename the names of its files.
-- Paths: the paths of uploads; Content: the write of one file, Content/Save the operations on one
--   (internal/store/files.go).
-- Decimal: the decimal numbers of Go's package strconv.
-- Base, Text: shared lists, byte strings, string maps, results, 64-bit durations; the functions of
--   Go's strings package that the code calls. Samples, Tests: small sites and runs on them.
--
-- Conventions. A string is the list of its bytes, or in OneLine and Tags of its characters; the
-- functions of Text treat letters and spaces of ASCII only. A time is a natural number of
-- nanoseconds since Go's zero time, which is 0, in Token of nanoseconds from 1970. A duration from
-- days wraps around like int64; other sums are not bounded. A map is an association list, a pointer
-- that may be nil an option. An operation on the disk that can fail has its outcome as an argument
-- in Store and Content, and succeeds in Zones, Offers and Sweep; a random label or token, the time
-- and the operator's trust are arguments too. An update is one critical section. Every loop is
-- structural recursion, but for two: the one of Scan's write, whose fuel is the number of bytes, and
-- the draw of a free label, which in the source gives up after a fixed number of draws as well.
--
-- Base64, the MAC, JSON, ed25519, regular expressions, the MIME table and the parsing of URLs are
-- parameters, with the laws that the theorems use; what DNS, the index and other sites answer to the
-- sweep is an argument.
--
-- Not modelled: DNS lookups, links and archives in the content, the symlinks of the indexes beyond
-- their removal, the walk over a site's files, events and hooks, HTTP, mail, the git program,
-- containers, the web front end.
pub mod Base
pub mod Text
pub mod Meta
pub mod DomainName
pub mod Routing
pub mod Store
pub mod Redirects
pub mod Addresses
pub mod Domains
pub mod OneLine
pub mod Guard
pub mod Lock
pub mod Retention
pub mod Expiry
pub mod Licence
pub mod Funnel
pub mod Samples
pub mod Tests
pub mod Decimal
pub mod Token
pub mod Session
pub mod FormLinks
pub mod PktLine
pub mod Cache
pub mod Tags
pub mod HostShare
pub mod Sweep
pub mod Zones
pub mod Offers
pub mod Limits
pub mod Scan
pub mod Rules
pub mod Forms
pub mod Paths
pub mod Content
