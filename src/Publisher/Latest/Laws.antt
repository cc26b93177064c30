-- ===== src/Publisher/Latest/Laws.antt =====
-- Each catalog has one event at most, which describes its present document; none is lost.
use romd_dat_catalogs.Prelude.{
  String, ◌≡◌, refl, Bool, true, false, not, ◌&&◌, List, [], ◌∷◌, arith, ◌==◌, contains, string_eq,
  any, All, ok, if-cases, subst, sym, >>=-eq-ok,
}
use romd_dat_catalogs.Prelude.Dict.{Dict}
use romd_dat_catalogs.Publisher.{Bytes, Catalog, Event, Snapshot}
use romd_dat_catalogs.Publisher.Objects.{Codec, entries, reference}
use romd_dat_catalogs.Publisher.Feed.{FeedText, feed_bytes}
use romd_dat_catalogs.Publisher.Latest.{is_present, latest_events, latest}

-- Some event of the list is the catalog's.
abbrev pub events_on : String → List Event → Bool
events_on id = any (λ e. id == e.catalog_id)

-- Some event of the list is the catalog's and describes its present document.
abbrev pub present_on : Dict Catalog → String → List Event → Bool
present_on catalogs id = any (λ e. (id == e.catalog_id) && is_present catalogs e)

-- The events of one list, in their order and unchanged, are among those of another.
pub data AreAmong : List Event → List Event → Type 0 where
  none_left : (events : List Event) → AreAmong [] events
  kept : (e : Event) (l events : List Event) → AreAmong l events → AreAmong (e ∷ l) (e ∷ events)
  passed : (e : Event) (l events : List Event) → AreAmong l events → AreAmong l (e ∷ events)

-- No two events of the list are of one catalog.
abbrev pub OnePerCatalog : List Event → Type 0
OnePerCatalog [] = Unit
OnePerCatalog (e ∷ rest) = (events_on e.catalog_id rest ≡ false) × OnePerCatalog rest

module _ (catalogs : Dict Catalog) where
  events_on-latest_events :
      (id : String) (seen : List String) (events : List Event)
      → events_on id (latest_events catalogs seen events)
        ≡ (present_on catalogs id events && not (contains seen id))
  unfolding latest_events
  events_on-latest_events id seen [] = refl
  events_on-latest_events id seen (e ∷ rest) = ground (
    arith,
    events_on-latest_events id seen rest,
    events_on-latest_events id (e.catalog_id ∷ seen) rest,
  )

  latest_events-present :
      (seen : List String) (events : List Event)
      → All (λ e. is_present catalogs e ≡ true) (latest_events catalogs seen events)
  unfolding latest_events
  latest_events-present seen [] = tt
  latest_events-present seen (e ∷ rest) =
      ground
        (arith, latest_events-present seen rest, latest_events-present (e.catalog_id ∷ seen) rest)

  latest_events-AreAmong :
      (seen : List String) (events : List Event)
      → AreAmong (latest_events catalogs seen events) events
  unfolding latest_events
  latest_events-AreAmong seen [] = none_left []
  latest_events-AreAmong seen (e ∷ rest) =
      if-cases (λ l. AreAmong l (e ∷ rest))
        (is_present catalogs e && not (contains seen e.catalog_id)) _ _
        (λ _. kept e _ rest (latest_events-AreAmong (e.catalog_id ∷ seen) rest))
        (λ _. passed e _ rest (latest_events-AreAmong seen rest))

  latest_events-OnePerCatalog :
      (seen : List String) (events : List Event)
      → OnePerCatalog (latest_events catalogs seen events)
  unfolding latest_events
  latest_events-OnePerCatalog seen [] = tt
  latest_events-OnePerCatalog seen (e ∷ rest) = ground (
    arith,
    events_on-latest_events e.catalog_id (e.catalog_id ∷ seen) rest,
    latest_events-OnePerCatalog seen rest,
    latest_events-OnePerCatalog (e.catalog_id ∷ seen) rest,
  )

-- What `Latest` leaves of the events.
pub record IsLatest (s s' : Snapshot) : Type 0 where
  pub among : AreAmong s'.events s.events
  pub one_each : OnePerCatalog s'.events
  pub present : All (λ e. is_present (entries s.catalogs) e ≡ true) s'.events
  pub complete :
      (id : String) → events_on id s'.events ≡ present_on (entries s.catalogs) id s.events
  pub catalogs : s'.catalogs ≡ s.catalogs
  pub sequence : s'.sequence ≡ s.sequence

-- The result keeps the catalogs and the sequence number. Its events are events of the given
-- snapshot, unchanged and in their order. Each catalog has one event at most, which describes its
-- present document; a catalog has one exactly where it had such an event before. The feed's
-- reference is that of the bytes returned beside it.
pub latest-IsLatest :
    (codec : Codec) (text : FeedText) (s s' : Snapshot) (feed : Bytes)
    → latest codec text s ≡ ok (s', feed)
    → IsLatest s s' × (s'.feed ≡ reference codec feed "xml")
unfolding latest
latest-IsLatest codec text s s' feed h =
    let catalogs = entries s.catalogs in
    let kept = latest_events catalogs [] s.events in
    let (b, _, e) = >>=-eq-ok (feed_bytes text kept "https://catalogs.example.invalid/") _ h in
    let events : s'.events ≡ kept = cc in
    let bytes : feed ≡ b = cc in
    (
      record {
        among =
            subst (λ l. AreAmong l s.events) (sym events)
              (latest_events-AreAmong catalogs [] s.events);
        one_each = rw events (latest_events-OnePerCatalog catalogs [] s.events);
        present = rw events (latest_events-present catalogs [] s.events);
        complete =
            λ id. rw (events, events_on-latest_events catalogs id [] s.events) (ground arith);
        catalogs = cc;
        sequence = cc;
      },
      cc,
    )
