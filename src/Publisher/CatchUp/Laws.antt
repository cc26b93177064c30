-- ===== src/Publisher/CatchUp/Laws.antt =====
-- Exactly what is left to fetch.
use romd_dat_catalogs.Prelude.{
  String, ◌≡◌, refl, Bool, true, false, Option, none, some, List, [], ◌∷◌, arith, ◌==◌, contains,
  string_eq, if◌then◌else◌,
}
use romd_dat_catalogs.Prelude.Dict.{Dict, lookup, NodupKeys}
use romd_dat_catalogs.Publisher.{Reference, Catalog}
use romd_dat_catalogs.Publisher.CatchUp.{text_or_blank, list_or_nil, catch_up}

-- What a catalog, if there is one, asks of an installation.
abbrev offered : Option Catalog → Option Reference
offered none = none
offered (some c) = c.artifact

module _ (installed : Dict String) (rejected : Dict (List String)) where
  -- The reference is due: neither installed nor rejected under the key.
  abbrev pub is_due : String → Reference → Bool
  is_due key r =
      if text_or_blank (lookup key installed) == r.sha256
      then false
      else if contains (list_or_nil (lookup key rejected)) r.sha256
      then false
      else true

  abbrev wanted : String → Option Reference → Option Reference
  wanted key none = none
  wanted key (some r) = if is_due key r then some r else none

  catch_up-absent :
      (key : String) (catalogs : Dict Catalog)
      → lookup key catalogs ≡ none
      → lookup key (catch_up catalogs installed rejected) ≡ none
  unfolding catch_up lookup
  catch_up-absent key [] h = refl
  catch_up-absent key ((j, c) ∷ rest) h = ground (arith, catch_up-absent key rest)

  -- Under each key the result holds the catalog's artifact exactly where there is one whose hash is
  -- neither the installed one nor among those rejected, and nothing otherwise; the entries of the
  -- map have distinct keys.
  pub lookup-catch_up :
      (key : String) (catalogs : Dict Catalog)
      → NodupKeys catalogs
      → lookup key (catch_up catalogs installed rejected)
        ≡ wanted key (offered (lookup key catalogs))
  unfolding catch_up lookup
  lookup-catch_up key [] u = refl
  lookup-catch_up key ((j, c) ∷ rest) (fresh, u) =
      ground (arith, lookup-catch_up key rest u, catch_up-absent j rest fresh)
