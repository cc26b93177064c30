-- ===== src/Publisher/CatchUp.antt =====
-- internal/publisher/publisher.go: `CatchUp`, what an installation still has to fetch.
pub mod Laws
use romd_dat_catalogs.Prelude.{
  ℕ, zero, suc, ◌+◌, String, ◌<>◌, Bool, true, false, not, ◌&&◌, ◌||◌, Option, none, some, List, [],
  ◌∷◌, ◌++◌, length, take, ltb, leb, if◌then◌else◌, ◌==◌, contains, string_eq, nat_eq, option_eq,
  Result, ok, err, refuse_if, or_err,
}
use romd_dat_catalogs.Prelude.Dict.{Dict, lookup, insert}
use romd_dat_catalogs.Prelude.Text.{codes, text_lt, decimal, trim_right_slash}
use romd_dat_catalogs.Prelude.Words.{next64}
use romd_dat_catalogs.Prelude.Regex.{Regex, both, one_of, plus, star, up_to, word, match_string}
use romd_dat_catalogs.Publisher.{
  Bytes, Counts, Reference, reference_eq, Attempt, Provenance, Catalog, Event, Snapshot, Current,
  Stream, Read, read, too_big, broken, read_bounded, max_input, max_metadata, format_name,
  trust_name,
}
use romd_dat_catalogs.Publisher.Document.{Formats, document}
use romd_dat_catalogs.Publisher.Disk.{Disk, Io, pure, lift, inspect, ◌>>=◌, atomic_write}
use romd_dat_catalogs.Publisher.Objects.{
  Codec, put, verified_read, verify_snapshot, load_snapshot, entries,
}
use romd_dat_catalogs.Publisher.Feed.{FeedText, feed_bytes}

abbrev pub text_or_blank : Option String → String
text_or_blank none = ""
text_or_blank (some t) = t

abbrev pub list_or_nil : Option (List String) → List String
list_or_nil none = []
list_or_nil (some l) = l

-- `CatchUp`
unfoldable pub catch_up : Dict Catalog → Dict String → Dict (List String) → Dict Reference
catch_up [] installed rejected = []
catch_up ((key, c) ∷ rest) installed rejected =
    let later = catch_up rest installed rejected in
    elim c.artifact [
      | none ↦ later
      | some r ↦
          if text_or_blank (lookup key installed) == r.sha256
          then later
          else if contains (list_or_nil (lookup key rejected)) r.sha256
          then later
          else (key, r) ∷ later
    ]
