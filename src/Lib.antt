-- ===== src/Lib.antt =====
-- Catalog publication, acquisition and distribution.
--
-- A library for the publication of ROM catalogs: a publisher that turns documents acquired from
-- providers into an append-only object store with one mutable pointer, the adapters and the
-- scheduler that ask the providers, the registry of reviewed catalogs, and the distribution of
-- what was published.
--
-- Prelude: results as a value or an error text, maps as their entries, texts by code points, the
-- part of regular expressions the program uses, and 64-bit wrap-around.
--
-- Publisher (internal/publisher): Document reads one document (Document in document.go), Feed
-- renders the feed, Disk is the directory (a write happens whole or not at all), Objects holds
-- put, VerifiedRead and LoadSnapshot, Arguments the checks of Publish, Publish its loop and its
-- commit, CatchUp and Latest the two views. A mutable snapshot is passed on as a value; the
-- variables of the loop are the record Loop.
--
-- Redump (internal/redump): Adapter is one batch of requests with its cooldown, Retry the retry
-- time, State the durable state and decodeState, Custody the two ways to keep it (saveState,
-- CompareAndSwap) behind one interface with laws, Scheduler the operations Initialize, Run,
-- Inspect and Recover. The observer that Run hands to the batch writes the record Watch.
--
-- Definitions (internal/definitions): Seeds and Validate are the checks of a registry and of its
-- compatibility with the previous one, Unique is uniqueValue on the decoder's tokens, Parse and
-- Source are Parse, Load and LoadSource.
--
-- NoIntro (internal/nointro) is the check of a No-Intro catalog (document.go); Scan and Attributes
-- are the regular expressions and attrs of forms.go, Forms the selection with prepareForm (Prepare)
-- and downloadForm (Download); Acquire is adapter.go, with the request of an attempt in Session and
-- the pages and attempts of Acquire in Walk. Checkpoint (internal/checkpoint) is the store on GitHub
-- that Custody can take.
--
-- Distribution (internal/distribution): Origin (origin.go), Git (the downloads of git.go), Candidate
-- (candidate.go), Stage (signIndex of stage.go, readRoot of keys.go), Publication (StageGit of
-- git.go), Restore (RestoreState of stage.go) and Recovery (RestorePublication of git.go, over
-- RestoreLatest, which is Latest/Restore of Publisher). Command (cmd/publisher/main.go) is the
-- selection of catalogs and the acquisition loop. Tests runs the definitions at concrete inputs.
--
-- Times are nanoseconds from the start of year 1, so that 0 is Go's zero time; they are not
-- bounded, and the calls of time.Add are taken not to overflow. The recovery counter and the
-- sequence number wrap at 64 bits. Most loops are structural recursion. On fuel are the decimal
-- writer, with 20 digits, which every 64-bit number fits in; the search for matches, with a unit for
-- each code point, each of which is passed once; uniqueValue, with a unit for each token; and the
-- attempts of a No-Intro acquisition, with three units.
--
-- Parameters stand for the standard library and the network: archive/zip, the XML tokenizer and
-- decoder, encoding/json, hashes, net/url, base64, http.ParseTime, strings.ToLower and
-- html.UnescapeString, the replies of a server and the faults of a disk. A map's entries stand in the
-- order in which the loop meets them, which Go leaves open.
--
-- Not modelled: the locks, flag parsing and printing; ReadManifest; MarshalJSON; the cookie jar;
-- Stage (the legacy staging of stage.go); the generation of keys (keys.go); RefreshIndex;
-- cmd/distribution and cmd/source-state. Encoding a state is taken to succeed, so no time lies past the
-- year 9999; a batch of Redump starts with a live context and a free gate; a disk has one name for
-- each file; and of a document that a No-Intro acquisition writes only the path is kept.
pub mod Prelude
pub mod Command
pub mod Definitions
pub mod Distribution
pub mod Checkpoint
pub mod Publisher
pub mod NoIntro
pub mod Redump
pub mod Tests
