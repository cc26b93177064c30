-- ===== src/Checkpoint/Store.antt =====
-- The checkpoint store on GitHub keeps what the scheduler relies on of a store.
use romd_dat_catalogs.Prelude.{
  if◌then◌else◌, ℕ, ◌*◌, ◌≤◌, ◌≡◌, ◌≢◌, refl, sym, ◌∙◌, ap, ◌⊎◌, inl, inr, String, ◌<>◌, Bool, true,
  false, Option, none, some, arith, length, ◌==◌, string_eq, nat_eq, Result, ok, Bool-cases,
  refuse_if-passed, >>=-eq-ok, ok-injective_pair, refuse_if,
}
use romd_dat_catalogs.Prelude.Dict.{Dict, lookup}
use romd_dat_catalogs.Prelude.Regex.{match_string, matches, nullable}
use romd_dat_catalogs.Publisher.{Bytes, Stream, Read, read, too_big, broken, read_bounded}
use romd_dat_catalogs.Redump.Custody.{CheckpointStore, IsLawful, Json, remote}
use romd_dat_catalogs.Redump.Custody.Lawful.{IsInverse, IsStore, remote-IsLawful}
use romd_dat_catalogs.Checkpoint.{
  max_bytes, revision, GitHub, File, Codec, Reply, no_reply, response, Server, blob_sha, received,
  body_of, bad_file, content_of, load, payload, check_receipt, swapped, bad_write, refuse_write,
  compare_and_swap, github,
}

abbrev pub ap_option : (Bytes → String) → Option Bytes → Option String
ap_option f none = none
ap_option f (some b) = some (f b)

-- What a file's description says of its bytes.
pub record Describes (codec : Codec) (raw : Bytes) (f : File) : Type 0 where
  pub kind : f.kind ≡ "file"
  pub encoding : f.encoding ≡ "base64"
  pub content : codec.decode_base64 f.content ≡ some raw
  pub sha : f.sha ≡ blob_sha codec raw
  pub size : f.size ≡ length raw

-- The contents API of GitHub, as far as the store relies on it. The address of a file reads it
-- from the branch of `ref`; a write with the members `branch`, `content` and, over a file that is
-- there, its `sha` replaces the file of that branch, or leaves it. A write that is answered with
-- 200 or 201 was made, over the very file that `sha` names or over none. It is taken that reads
-- get through and that nobody else writes.
pub record IsServer {S : Type 0} (codec : Codec) (server : Server S) : Type 0 where
  pub file : String → String → S → Option Bytes
  pub got :
      (endpoint branch : String) (st : S) (raw : Bytes)
      → file endpoint branch st ≡ some raw
      → length raw ≤ max_bytes
      → (body : Bytes) × (f : File) × (server.get (endpoint <> ("?ref=" <> branch)) st
          ≡ response 200 (record { delivered = body; fails = false }))
        × (length body ≤ 2 * max_bytes)
        × (codec.decode_file body ≡ some f)
        × Describes codec raw f
  pub same :
      (endpoint branch : String) (st st' : S)
      → file endpoint branch st ≡ file endpoint branch st'
      → server.get (endpoint <> ("?ref=" <> branch)) st
        ≡ server.get (endpoint <> ("?ref=" <> branch)) st'
  pub written :
      (endpoint branch content : String) (p : Dict String) (raw : Bytes) (st st' : S)
      (reply : Reply)
      → lookup "branch" p ≡ some branch
      → lookup "content" p ≡ some content
      → codec.decode_base64 content ≡ some raw
      → server.put endpoint p st ≡ (reply, st')
      → (file endpoint branch st' ≡ file endpoint branch st) ⊎ (file endpoint branch st' ≡ some raw)
  pub done :
      (endpoint branch content : String) (p : Dict String) (raw : Bytes) (st st' : S) (status : ℕ)
      (body : Stream)
      → lookup "branch" p ≡ some branch
      → lookup "content" p ≡ some content
      → codec.decode_base64 content ≡ some raw
      → server.put endpoint p st ≡ (response status body, st')
      → (status ≡ 200) ⊎ (status ≡ 201)
      → (file endpoint branch st' ≡ some raw)
        × (ap_option (blob_sha codec) (file endpoint branch st) ≡ lookup "sha" p)

-- SHA-1 is written as a revision, and base64 is read back.
pub record IsCodec (codec : Codec) : Type 0 where
  pub revision : (b : Bytes) → match_string revision (codec.sha1 b) ≡ true
  pub inverse : (raw : Bytes) → codec.decode_base64 (codec.encode_base64 raw) ≡ some raw

payload-content :
    (codec : Codec) (version : String) (raw : Bytes)
    → lookup "content" (payload codec version raw) ≡ some (codec.encode_base64 raw)
unfolding payload lookup string_eq
payload-content codec version raw = elim (Bool-cases (version == "")) [
  | inl e ↦ rw e refl
  | inr e ↦ rw e refl
]

payload-branch :
    (codec : Codec) (version : String) (raw : Bytes)
    → lookup "branch" (payload codec version raw) ≡ some "source-state"
unfolding payload lookup string_eq
payload-branch codec version raw = elim (Bool-cases (version == "")) [
  | inl e ↦ rw e refl
  | inr e ↦ rw e refl
]

-- The version that a write replaces: none is the empty text.
abbrev pub stated : String → Option String
stated version = if version == "" then none else some version

payload-sha :
    (codec : Codec) (version : String) (raw : Bytes)
    → lookup "sha" (payload codec version raw) ≡ stated version
unfolding payload lookup string_eq
payload-sha codec version raw = elim (Bool-cases (version == "")) [
  | inl e ↦ rw e refl
  | inr e ↦ rw e refl
]

revision-empty : (s : String) → match_string revision s ≡ true → s ≢ ""
unfolding match_string matches nullable revision
revision-empty s h e = absurd (let h' = rw e at h in cc)

read_bounded-small :
    (body : Bytes) (limit : ℕ)
    → length body ≤ limit
    → read_bounded (record { delivered = body; fails = false }) limit ≡ read body
unfolding read_bounded
read_bounded-small body limit h = ground arith

-- A reply that was received is a response of the status.
body_of-status : (r : Read) (s status : ℕ) (b : Bytes) → body_of r s ≡ ok (b, status) → s ≡ status
unfolding body_of
body_of-status (read c) s status b h = (ok-injective_pair h).1
body_of-status too_big s status b h = absurd cc
body_of-status broken s status b h = absurd cc

received-eq-ok :
    (reply : Reply) (b : Bytes) (status : ℕ)
    → received reply ≡ ok (b, status)
    → (body : Stream) × (reply ≡ response status body)
unfolding received
received-eq-ok no_reply b status h = absurd cc
received-eq-ok (response s body) b status h =
    (body, ap (λ n. response n body) (body_of-status _ s status b h))

check_receipt-eq-ok :
    (codec : Codec) (raw : Bytes) (o : Option String) (v : String)
    → check_receipt codec raw o ≡ ok v
    → v ≡ blob_sha codec raw
unfolding check_receipt
check_receipt-eq-ok codec raw none v h = absurd cc
check_receipt-eq-ok codec raw (some sha) v h = elim (Bool-cases (sha == blob_sha codec raw)) [
  | inl e ↦ ground (arith, h, e)
  | inr e ↦ absurd (ground (arith, h, e))
]

-- An acknowledged write was answered with 200 or 201, and with the hash of its bytes.
swapped-eq-ok :
    (codec : Codec) (raw : Bytes) (reply : Reply) (v : String)
    → swapped codec raw reply ≡ ok v
    → (status : ℕ) × (body : Stream) × (reply ≡ response status body)
      × ((status ≡ 200) ⊎ (status ≡ 201))
      × (v ≡ blob_sha codec raw)
unfolding swapped
swapped-eq-ok codec raw reply v h =
    let ((b, status), e₁, e₂) = >>=-eq-ok (received reply) _ h in
    let (_, e₃) = refuse_if-passed _ _ _ e₂ in
    let (good, e₄) = refuse_if-passed _ _ _ e₃ in
    let (body, e₅) = received-eq-ok reply b status e₁ in
    let either : (status ≡ 200) ⊎ (status ≡ 201) = ground (arith, good) in
    (status, body, e₅, either, check_receipt-eq-ok codec raw _ v e₄)

refuse_write-eq-ok :
    {S : Type 0} (b : Bool) (e v : String) (st st' : S) (k : Result String × S)
    → refuse_write b e st k ≡ (ok v, st')
    → (b ≡ false) × (k ≡ (ok v, st'))
unfolding refuse_write
refuse_write-eq-ok true e v st st' k h = absurd cc
refuse_write-eq-ok false e v st st' k h = (refl, h)

bad_write-length :
    (version : String) (raw : Bytes)
    → bad_write version raw ≡ false
    → (1 ≤ length raw) × (length raw ≤ max_bytes)
unfolding bad_write
bad_write-length version raw h = (ground arith, ground arith)

module _ {S : Type 0} (codec : Codec) (server : Server S) (g : GitHub)
    (laws : IsServer codec server) (codec_laws : IsCodec codec) where
  blob_sha-revision : (raw : Bytes) → match_string revision (blob_sha codec raw) ≡ true
  unfolding blob_sha
  blob_sha-revision raw = codec_laws.revision _

  content_of-Describes :
      (raw : Bytes) (f : File)
      → Describes codec raw f
      → content_of codec f ≡ ok (raw, blob_sha codec raw)
  unfolding content_of refuse_if
  content_of-Describes raw f d =
      let same : (length raw == f.size) ≡ true = ground (arith, d.size) in
      let hash : (blob_sha codec raw == f.sha) ≡ true = ground (arith, d.sha) in
      rw (d.content, same, hash) (ap (λ v. ok (raw, v)) d.sha)

  bad_file-Describes :
      (raw : Bytes) (f : File)
      → Describes codec raw f
      → 1 ≤ length raw
      → length raw ≤ max_bytes
      → bad_file f ≡ false
  unfolding bad_file
  bad_file-Describes raw f d low high =
      let shape = blob_sha-revision raw in
      let s = d.sha in let n = d.size in let t = d.kind in let e = d.encoding in ground arith

  -- A file of the branch is read, with the hash of its bytes for a version.
  load-file :
      (st : S) (raw : Bytes)
      → laws.file g.endpoint "source-state" st ≡ some raw
      → 1 ≤ length raw
      → length raw ≤ max_bytes
      → load codec server g st ≡ ok (raw, blob_sha codec raw)
  unfolding load received body_of refuse_if nat_eq
  load-file st raw h low high =
      let (body, f, e, small, decoded, d) = laws.got g.endpoint "source-state" st raw h high in
      rw
        (
          e,
          read_bounded-small body (2 * max_bytes) small,
          decoded,
          bad_file-Describes raw f d low high,
        )
        (content_of-Describes raw f d)

  load-same :
      (st st' : S)
      → laws.file g.endpoint "source-state" st' ≡ laws.file g.endpoint "source-state" st
      → load codec server g st' ≡ load codec server g st
  unfolding load
  load-same st st' h = rw (laws.same g.endpoint "source-state" st' st h) refl

  -- An acknowledged write went over the file that the version names, and is what stands there.
  swap-replaces :
      (version v : String) (raw : Bytes) (st st' : S)
      → compare_and_swap codec server g version raw st ≡ (ok v, st')
      → (v ≡ blob_sha codec raw)
        × (1 ≤ length raw)
        × (length raw ≤ max_bytes)
        × (laws.file g.endpoint "source-state" st' ≡ some raw)
        × (ap_option (blob_sha codec) (laws.file g.endpoint "source-state" st) ≡ stated version)
  unfolding compare_and_swap
  swap-replaces version v raw st st' h =
      let p = payload codec version raw in
      let (good, e) = refuse_write-eq-ok _ _ _ _ _ _ h in
      let (low, high) = bad_write-length version raw good in
      let (status, body, replied, either, hash) =
        swapped-eq-ok codec raw (server.put g.endpoint p st).0 v (ap (λ t. t.0) e) in
      let put : server.put g.endpoint p st ≡ (response status body, st') =
        λ i. (replied i, ap (λ t. t.1) e i) in
      let (kept, over) =
        laws.done g.endpoint "source-state" (codec.encode_base64 raw) p raw st st' status body
          (payload-branch codec version raw) (payload-content codec version raw)
          (codec_laws.inverse raw) put either in
      (hash, low, high, kept, over ∙ payload-sha codec version raw)

  swap-swapped :
      (version v : String) (raw : Bytes) (st st' : S)
      → compare_and_swap codec server g version raw st ≡ (ok v, st')
      → load codec server g st' ≡ ok (raw, v)
  swap-swapped version v raw st st' h =
      let (hash, low, high, kept, _) = swap-replaces version v raw st st' h in
      load-file st' raw kept low high ∙ ap (λ u. ok (raw, u)) (sym hash)

  swap-whole :
      (b : Bool) (version : String) (raw : Bytes) (st st' : S) (r : Result String)
      → bad_write version raw ≡ b
      → compare_and_swap codec server g version raw st ≡ (r, st')
      → (load codec server g st' ≡ load codec server g st)
        ⊎ ((u : String) × (u ≢ "") × (load codec server g st' ≡ ok (raw, u)))
  unfolding compare_and_swap refuse_write
  swap-whole true version raw st st' r bad h =
      let same : st' ≡ st = sym (ap (λ t. t.1) (rw bad at h)) in inl (rw same refl)
  swap-whole false version raw st st' r good h =
      let p = payload codec version raw in
      let (low, high) = bad_write-length version raw good in
      let moved : (server.put g.endpoint p st).1 ≡ st' = ap (λ t. t.1) (rw good at h) in
      let put : server.put g.endpoint p st ≡ ((server.put g.endpoint p st).0, st') =
        λ i. ((server.put g.endpoint p st).0, moved i) in
      elim (laws.written g.endpoint "source-state" (codec.encode_base64 raw) p raw st st' _
        (payload-branch codec version raw) (payload-content codec version raw)
        (codec_laws.inverse raw) put) [
          | inl same ↦ inl (load-same st st' same)
          | inr kept ↦ inr (
            blob_sha codec raw,
            revision-empty _ (blob_sha-revision raw),
            load-file st' raw kept low high,
          )
        ]

  IsStore-laws : IsStore (github codec server g)
  unfolding github
  IsStore-laws = record {
    swapped = λ version v raw st st' h _. swap-swapped version v raw st st' h;
    whole = λ version raw st st' r h. swap-whole _ version raw st st' r refl h;
  }

  -- What a swap is: it replaces the file that its version names, or makes one where there is none.
  pub Replaces : CheckpointStore S → Type 0
  Replaces store =
      (version v : String) (raw : Bytes) (st st' : S)
      → store.compare_and_swap version raw st ≡ (ok v, st')
      → (laws.file g.endpoint "source-state" st' ≡ some raw)
        × (ap_option (blob_sha codec) (laws.file g.endpoint "source-state" st) ≡ stated version)

  -- Over a server that keeps what GitHub's contents API documents, the checkpoint store is one
  -- that the scheduler can rely on: what an acknowledged `CompareAndSwap` wrote is what `Load`
  -- reads, with the returned version, and whatever it answers, the write happened whole or nothing
  -- changed. An acknowledged write stands in the store's file of the branch source-state, over the
  -- very file that the version names, or over none where the version is empty.
  pub github-IsStore : IsStore (github codec server g) × Replaces (github codec server g)
  unfolding github Replaces
  github-IsStore = (
    IsStore-laws,
    λ version v raw st st' h.
        let (_, _, _, kept, over) = swap-replaces version v raw st st' h in (kept, over),
  )

  -- The source state in the custody of GitHub is lawful: `commit` then `load` gives the state back,
  -- what is loaded is valid, and a failed `commit` has happened whole or not at all.
  pub github-IsLawful :
      (json : Json) → IsInverse json → IsLawful (remote json (github codec server g))
  github-IsLawful json inv = remote-IsLawful json inv (github codec server g) IsStore-laws
