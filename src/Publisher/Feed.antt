-- ===== src/Publisher/Feed.antt =====
-- internal/publisher/feed.go: the RSS document of the events, up to its XML text.
use romd_dat_catalogs.Prelude.{ℕ, String, ◌<>◌, Option, List, [], ◌∷◌, Result, ok, ◌>>=◌, or_err}
use romd_dat_catalogs.Publisher.{Bytes, Event}

pub record Item : Type 0 where
  pub title : String
  pub guid : String
  pub permanent : String
  pub date : String
  pub link : String
  pub enclosure_url : String
  pub enclosure_length : ℕ
  pub enclosure_type : String
  pub catalog_id : String
  pub hash : String
  pub sequence : ℕ

pub record Channel : Type 0 where
  pub title : String
  pub link : String
  pub description : String
  pub items : List Item

-- encoding/xml's `Marshal` under the XML header line, `time.Parse` at RFC3339Nano (nanoseconds
-- from the start of year 1, which is Go's zero time), and the RSS date format.
pub record FeedText : Type 0 where
  pub marshal : Channel → Bytes
  pub parse_time : String → Option ℕ
  pub pub_date : ℕ → String

unfoldable pub feed_items : FeedText → String → List Event → Result (List Item)
feed_items text base [] = ok []
feed_items text base (e ∷ events) = do
  at ← or_err (text.parse_time e.published_at) "cannot parse time"
  let u = base <> e.artifact.path
  items ← feed_items text base events
  ok (
      record {
        title = e.name;
        guid = e.id;
        permanent = "false";
        date = text.pub_date at;
        link = u;
        enclosure_url = u;
        enclosure_length = e.artifact.bytes;
        enclosure_type = "application/xml";
        catalog_id = e.catalog_id;
        hash = e.artifact.sha256;
        sequence = e.sequence;
      }
      ∷ items)

-- `feedBytes`
unfoldable pub feed_bytes : FeedText → List Event → String → Result Bytes
unfolding feed_items
feed_bytes text events base = do
  items ← feed_items text base events
  ok (
      text.marshal (record {
        title = "ROMD DAT catalogs (development)";
        link = base;
        description =
            "Catalog document changes; verify signed distribution metadata before applying updates";
        items = items;
      }))
