-- ===== src/Publisher.antt =====
-- internal/publisher: the structs of publisher.go, document.go and feed.go, and what the package
-- takes from outside the repository.
pub mod Document
pub mod Disk
pub mod Objects
pub mod Feed
pub mod Arguments
pub mod Publish
pub mod CatchUp
pub mod Latest
use romd_dat_catalogs.Prelude.{ℕ, String, Option, none, some, List, [], ◌∷◌, Bool, Eq}
use romd_dat_catalogs.Prelude.{string_eq, nat_eq, length, ltb, if◌then◌else◌}
use romd_dat_catalogs.Prelude.Dict.{Dict}

abbrev pub Bytes : Type 0
Bytes = List ℕ

pub Bytes-discrete : Discrete Bytes
Bytes-discrete = hlevel nat_eq.dec

instance abbrev pub bytes_eq : Eq Bytes
bytes_eq = record { dec = Bytes-discrete }

abbrev pub max_input : ℕ
max_input = 16777216

abbrev pub max_document : ℕ
max_document = 33554432

abbrev pub max_metadata : ℕ
max_metadata = 16777216

pub record Counts : Type 0 where
  pub games : ℕ
  pub roms : ℕ

pub record Reference : Type 0 where
  pub path : String
  pub sha256 : String
  pub bytes : ℕ

unfoldable pub Reference-discrete : Discrete Reference
Reference-discrete = hlevel (string_eq.dec, nat_eq.dec)

instance abbrev pub reference_eq : Eq Reference
reference_eq = record { dec = Reference-discrete }

pub record Attempt : Type 0 where
  pub retry_at : Option String
  pub catalog_id : String
  pub expected_name : String
  pub source_url : String
  pub path : Option String
  pub failure : Option String

pub record Provenance : Type 0 where
  pub source_url : String
  pub acquired_at : String

pub record Catalog : Type 0 where
  pub retry_at : Option String
  pub name : String
  pub artifact : Option Reference
  pub last_successful_check : Option String
  pub last_changed : Option String
  pub last_attempt : String
  pub health : String
  pub error : Option String
  pub counts : Option Counts
  pub provenance : Option Provenance

pub record Event : Type 0 where
  pub id : String
  pub catalog_id : String
  pub name : String
  pub sequence : ℕ
  pub published_at : String
  pub artifact : Reference

-- `catalogs` is `none` for the nil map.
pub record Snapshot : Type 0 where
  pub format : String
  pub sequence : ℕ
  pub published_at : String
  pub catalogs : Option (Dict Catalog)
  pub events : List Event
  pub feed : Reference

pub record Current : Type 0 where
  pub format : String
  pub trust : String
  pub sequence : ℕ
  pub snapshot : Reference

abbrev pub format_name : String
format_name = "romd-dat-catalog-experimental-1"

abbrev pub trust_name : String
trust_name = "unsigned-development"

-- A reader delivers some bytes, and then ends or fails.
pub record Stream : Type 0 where
  pub delivered : Bytes
  pub fails : Bool

pub data Read : Type 0 where
  read : Bytes → Read
  too_big : Read
  broken : Read

-- The limited reader ends after `limit + 1` bytes, before a later failure shows.
unfoldable pub read_bounded : Stream → ℕ → Read
read_bounded s limit =
    if ltb limit (length s.delivered) then too_big else if s.fails then broken else read s.delivered
