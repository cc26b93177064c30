-- ===== src/Distribution/Candidate.antt =====
-- internal/distribution/candidate.go: `ReadCandidate`, a document that the signed index names.
use romd_dat_catalogs.Prelude.{
  ℕ, String, Bool, false, not, ◌&&◌, ◌||◌, Option, none, some, length, ltb, if◌then◌else◌, ◌==◌,
  string_eq, nat_eq, Result, ok, err, ◌>>=◌, ◌>>◌, refuse_if, refuse_if-passed, >>=-eq-ok,
  ok-injective_pair, or_err, ◌≡◌, sym, subst, ap, ◌∙◌, arith,
}
use mathlib.Core.List.{reverse}
use romd_dat_catalogs.Prelude.Dict.{lookup}
use romd_dat_catalogs.Prelude.Text.{codes, has_prefix}
use romd_dat_catalogs.Prelude.Regex.{match_string}
use romd_dat_catalogs.Publisher.{Bytes, Counts, Reference, Catalog, Provenance, max_document}
use romd_dat_catalogs.Publisher.Objects.{entries}
use romd_dat_catalogs.Publisher.Document.{Formats, document}
use romd_dat_catalogs.Definitions.{Registry, Catalog as Definition}
use romd_dat_catalogs.Definitions.Validate.{validate}
use romd_dat_catalogs.Distribution.{
  Asset, Index, Net, git_asset_url, git_format, fetch_asset, fetch_asset_sound,
}

pub record Candidate : Type 0 where
  pub system_id : String
  pub catalog_id : String
  pub name : String
  pub sha256 : String
  pub bytes : ℕ
  pub publication_version : ℕ
  pub source_url : String

-- `strings.HasSuffix`
abbrev has_suffix : String → String → Bool
has_suffix s t = has_prefix (reverse (codes s)) (reverse (codes t))

abbrev system_of : String → String → Option Definition → Result String
system_of id name none =
    if id == "synthetic/console/standard" then ok "" else err "catalog system binding is invalid"
system_of id name (some def) =
    if def.expected_name == name
    then ok def.system_id
    else if id == "synthetic/console/standard"
    then ok ""
    else err "catalog system binding is invalid"

-- The system that the index's definitions bind the catalog to, "" without any.
unfoldable pub system_binding :
    (String → String) → Option Registry → String → String → Result String
system_binding to_lower none id name = ok ""
system_binding to_lower (some r) id name = do
  validate to_lower r
  system_of id name (lookup id r.catalogs)

unfoldable pub bad_reference : Reference → Asset → Bool
bad_reference r a =
    not (has_suffix r.path ".dat")
    || not (a.bytes == r.bytes)
    || not (a.sha256 == r.sha256)
    || ltb r.bytes 1
    || ltb max_document r.bytes

abbrev source_of : Option Provenance → String
source_of none = ""
source_of (some p) = p.source_url

-- The catalog, its reference and its download, bound to each other.
pub record Binding : Type 0 where
  pub catalog : Catalog
  pub system : String
  pub artifact : Reference
  pub asset : Asset

unfoldable pub bind_candidate : (String → String) → Index → String → String → Result Binding
bind_candidate to_lower index id name = do
  c ←
      or_err (lookup id (entries index.snapshot.catalogs))
        "catalog identity is not present in the signed index"
  refuse_if (not (c.name == name) || name == "")
      "catalog identity is not present in the signed index"
  system ← system_binding to_lower index.definitions id name
  r ←
      or_err c.artifact
        "no retained catalog artifact is available; keep the installed version and retry later"
  a ← or_err (lookup r.path index.downloads) "catalog artifact binding is invalid"
  refuse_if (bad_reference r a) "catalog artifact binding is invalid"
  refuse_if (index.format == git_format && not (match_string git_asset_url a.url))
      "expected immutable Git document URL"
  ok (record { catalog = c; system = system; artifact = r; asset = a })

unfoldable pub fetch_document : Formats → Net → String → Reference → Asset → Result Bytes
fetch_document formats net name r a = do
  raw ← fetch_asset net a
  (doc, counts) ← document formats raw name
  refuse_if (not (length doc == r.bytes) || not (net.hash doc == r.sha256))
      "expected an exact extracted DAT document"
  ok doc

abbrev candidate_of : Index → String → String → Binding → Candidate
candidate_of index id name k = record {
  system_id = k.system;
  catalog_id = id;
  name = name;
  sha256 = k.artifact.sha256;
  bytes = k.artifact.bytes;
  publication_version = index.version;
  source_url = source_of k.catalog.provenance;
}

-- `ReadCandidate`
unfoldable pub read_candidate :
    (String → String) → Formats → Net → Index → String → String → Result (Candidate × Bytes)
unfolding bind_candidate fetch_document
read_candidate to_lower formats net index id name = do
  k ← bind_candidate to_lower index id name
  doc ← fetch_document formats net name k.artifact k.asset
  ok (candidate_of index id name k, doc)

-- What a candidate that was read is: the document of the catalog of that identifier and name in the
-- index, as its reference names it.
pub record IsBound (formats : Formats) (net : Net) (index : Index) (id name : String)
    (x : Candidate) (doc : Bytes) : Type 0 where
  pub catalog : Catalog
  pub artifact : Reference
  pub raw : Bytes
  pub counts : Counts
  pub listed : lookup id (entries index.snapshot.catalogs) ≡ some catalog
  pub named : catalog.name ≡ name
  pub retained : catalog.artifact ≡ some artifact
  pub accepted : document formats raw name ≡ ok (doc, counts)
  pub fetched : (length raw ≡ artifact.bytes) × (net.hash raw ≡ artifact.sha256)
  pub exact : (length doc ≡ artifact.bytes) × (net.hash doc ≡ artifact.sha256)
  pub told :
      (x.sha256 ≡ artifact.sha256)
      × (x.bytes ≡ artifact.bytes)
      × (x.catalog_id ≡ id)
      × (x.name ≡ name)
      × (x.publication_version ≡ index.version)

or_err-eq-ok {ℓ} : {A : Type ℓ} (o : Option A) (m : String) {a : A} → or_err o m ≡ ok a → o ≡ some a
or_err-eq-ok none m e = absurd cc
or_err-eq-ok (some a) m e = cc

bad_reference-same :
    (r : Reference) (a : Asset)
    → bad_reference r a ≡ false
    → (a.bytes ≡ r.bytes) × (a.sha256 ≡ r.sha256)
unfolding bad_reference string_eq nat_eq
bad_reference-same r a e = (ground (arith, e), ground (arith, e))

-- The facts of a binding.
record IsBinding (index : Index) (id name : String) (k : Binding) : Type 0 where
  listed : lookup id (entries index.snapshot.catalogs) ≡ some k.catalog
  named : k.catalog.name ≡ name
  retained : k.catalog.artifact ≡ some k.artifact
  same : (k.asset.bytes ≡ k.artifact.bytes) × (k.asset.sha256 ≡ k.artifact.sha256)

bind_candidate-IsBinding :
    (to_lower : String → String) (index : Index) (id name : String) (k : Binding)
    → bind_candidate to_lower index id name ≡ ok k
    → IsBinding index id name k
unfolding bind_candidate
bind_candidate-IsBinding to_lower index id name k e =
    let (c, e₁, k₁) = >>=-eq-ok (or_err (lookup id (entries index.snapshot.catalogs)) _) _ e in
    let (named, k₂) = refuse_if-passed _ _ _ k₁ in
    let (system, _, k₃) = >>=-eq-ok (system_binding to_lower index.definitions id name) _ k₂ in
    let (r, e₄, k₄) = >>=-eq-ok (or_err c.artifact _) _ k₃ in
    let (a, e₅, k₅) = >>=-eq-ok (or_err (lookup r.path index.downloads) _) _ k₄ in
    let (good, k₆) = refuse_if-passed _ _ _ k₅ in
    let (_, k₇) = refuse_if-passed _ _ _ k₆ in
    let built : Binding = record { catalog = c; system = system; artifact = r; asset = a } in
    let same : built ≡ k = cc in
    subst (IsBinding index id name) same (record {
      listed = or_err-eq-ok _ _ e₁;
      named = ground (arith, named);
      retained = or_err-eq-ok _ _ e₄;
      same = bad_reference-same r a good;
    })

fetch_document-eq-ok :
    (formats : Formats) (net : Net) (name : String) (r : Reference) (a : Asset) (doc : Bytes)
    → fetch_document formats net name r a ≡ ok doc
    → (raw : Bytes) × (counts : Counts) × (document formats raw name ≡ ok (doc, counts))
      × (length raw ≡ a.bytes)
      × (net.hash raw ≡ a.sha256)
      × (length doc ≡ r.bytes)
      × (net.hash doc ≡ r.sha256)
unfolding fetch_document
fetch_document-eq-ok formats net name r a doc e =
    let (raw, e₁, k₁) = >>=-eq-ok (fetch_asset net a) _ e in
    let ((doc₁, counts), e₂, k₂) = >>=-eq-ok (document formats raw name) _ k₁ in
    let (exact, k₃) = refuse_if-passed _ _ _ k₂ in
    let same : doc₁ ≡ doc = cc in
    let (size, hashed, _, _) = fetch_asset_sound net a raw e₁ in
    (
      raw,
      counts,
      e₂ ∙ ap (λ d. ok (d, counts)) same,
      size,
      hashed,
      ap length (sym same) ∙ ground (arith, exact),
      ap net.hash (sym same) ∙ ground (arith, exact),
    )

-- A candidate is what the index names: its catalog stands in the signed snapshot under that name,
-- what was fetched and the document extracted from it both have the hash and the length of the
-- catalog's artifact, and the document was accepted under the name.
pub read_candidate_sound :
    (to_lower : String → String) (formats : Formats) (net : Net) (index : Index) (id name : String)
    (x : Candidate) (doc : Bytes)
    → read_candidate to_lower formats net index id name ≡ ok (x, doc)
    → IsBound formats net index id name x doc
unfolding read_candidate
read_candidate_sound to_lower formats net index id name x doc e =
    let (k, e₁, k₁) = >>=-eq-ok (bind_candidate to_lower index id name) _ e in
    let (doc₁, e₂, k₂) = >>=-eq-ok (fetch_document formats net name k.artifact k.asset) _ k₁ in
    let (told, same) = ok-injective_pair k₂ in
    let b = bind_candidate-IsBinding to_lower index id name k e₁ in
    let (raw, counts, e₃, size, hashed, size', hashed') =
      fetch_document-eq-ok formats net name k.artifact k.asset doc (e₂ ∙ ap ok same) in
    record {
      catalog = k.catalog;
      artifact = k.artifact;
      raw = raw;
      counts = counts;
      listed = b.listed;
      named = b.named;
      retained = b.retained;
      accepted = e₃;
      fetched = (size ∙ b.same.0, hashed ∙ b.same.1);
      exact = (size', hashed');
      told = (
        ap (λ x. x.sha256) (sym told),
        ap (λ x. x.bytes) (sym told),
        ap (λ x. x.catalog_id) (sym told),
        ap (λ x. x.name) (sym told),
        ap (λ x. x.publication_version) (sym told),
      );
    }
