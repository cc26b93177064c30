-- ===== src/Publisher/Latest.antt =====
-- internal/publisher/latest.go: one event for each catalog whose document it describes.
pub mod Laws
pub mod Restore
use romd_dat_catalogs.Prelude.{
  String, ◌<>◌, Bool, true, false, not, ◌&&◌, none, some, Option, List, [], ◌∷◌, if◌then◌else◌,
  ◌==◌, contains, string_eq, option_eq, length, Result, ok, ◌>>=◌,
}
use romd_dat_catalogs.Prelude.Dict.{Dict, lookup}
use romd_dat_catalogs.Publisher.{Bytes, Reference, reference_eq, Catalog, Event, Snapshot}
use romd_dat_catalogs.Publisher.Objects.{Codec, reference, entries}
use romd_dat_catalogs.Publisher.Feed.{FeedText, feed_bytes}

-- The event's artifact is the catalog's present one.
unfoldable pub is_present : Dict Catalog → Event → Bool
is_present catalogs e = elim (lookup e.catalog_id catalogs) [
  | none ↦ false
  | some c ↦ c.artifact == some e.artifact
]

-- The loop of `Latest`; `seen` holds the catalogs that have their event.
unfoldable pub latest_events : Dict Catalog → List String → List Event → List Event
latest_events catalogs seen [] = []
latest_events catalogs seen (e ∷ rest) =
    let take_it = e ∷ latest_events catalogs (e.catalog_id ∷ seen) rest in
    let skip_it = latest_events catalogs seen rest in
    if is_present catalogs e && not (contains seen e.catalog_id) then take_it else skip_it

-- `Latest`
unfoldable pub latest : Codec → FeedText → Snapshot → Result (Snapshot × Bytes)
unfolding latest_events
latest codec text s = do
  let events = latest_events (entries s.catalogs) [] s.events
  feed ← feed_bytes text events "https://catalogs.example.invalid/"
  ok (record s { events = events; feed = reference codec feed "xml" }, feed)
