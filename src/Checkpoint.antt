-- ===== src/Checkpoint.antt =====
-- internal/checkpoint/github.go: the checkpoint store that keeps the source state in one file of a
-- branch on GitHub. The server, SHA-1, base64 and encoding/json are parameters.
pub mod Store
use romd_dat_catalogs.Prelude.{
  ℕ, ◌+◌, ◌*◌, String, ◌<>◌, Bool, true, false, not, ◌&&◌, ◌||◌, Option, none, some, List, [], ◌∷◌,
  ◌++◌, ltb, length, if◌then◌else◌, ◌==◌, string_eq, nat_eq, Result, ok, err, ◌>>=◌, ◌>>◌,
  refuse_if, or_err,
}
use romd_dat_catalogs.Prelude.Dict.{Dict}
use romd_dat_catalogs.Prelude.Text.{codes, decimal, is_blank}
use romd_dat_catalogs.Prelude.Regex.{Regex, one_of, both, star, times, exactly, match_string}
use romd_dat_catalogs.Publisher.{Bytes, Stream, Read, read, too_big, broken, read_bounded}
use romd_dat_catalogs.Redump.Custody.{CheckpointStore}

abbrev pub max_bytes : ℕ
max_bytes = 524288

abbrev branch : String
branch = "source-state"

abbrev file_name : String
file_name = "redump-state.json"

abbrev pub conflict : String
conflict = "checkpoint changed; reload and review before retrying"

abbrev name_re : Regex
name_re = both (one_of ((b'A', b'Z') ∷ (b'a', b'z') ∷ (b'0', b'9') ∷ [])) (
    star (
      one_of (
        (b'A', b'Z')
        ∷ (b'a', b'z')
        ∷ (b'0', b'9')
        ∷ (b'_', b'_')
        ∷ (b'.', b'.')
        ∷ (b'-', b'-')
        ∷ [])))

-- `^[A-Za-z0-9][A-Za-z0-9_.-]*/[A-Za-z0-9][A-Za-z0-9_.-]*$`
unfoldable pub repository : Regex
repository = both name_re (both (exactly b'/') name_re)

-- `^[a-f0-9]{40}$`
unfoldable pub revision : Regex
revision = times 40 (one_of ((b'a', b'f') ∷ (b'0', b'9') ∷ []))

pub record GitHub : Type 0 where
  pub endpoint : String
  pub token : String

-- `NewGitHub`
unfoldable pub new_github : String → String → Result GitHub
new_github repo token = do
  refuse_if (not (match_string repository repo) || is_blank token)
      "repository and GitHub token required"
  ok (record {
    endpoint = "https://api.github.com/repos/" <> (repo <> ("/contents/" <> file_name));
    token = token;
  })

pub record File : Type 0 where
  pub kind : String
  pub encoding : String
  pub content : String
  pub sha : String
  pub size : ℕ

-- `decode_file` and `decode_receipt` are `json.Unmarshal`; `sha1` gives small hexadecimal digits.
pub record Codec : Type 0 where
  pub sha1 : Bytes → String
  pub encode_base64 : Bytes → String
  pub decode_base64 : String → Option Bytes
  pub decode_file : Bytes → Option File
  pub decode_receipt : Bytes → Option String

-- What the HTTP client gives: an error, or a response.
pub data Reply : Type 0 where
  no_reply : Reply
  response : (status : ℕ) (body : Stream) → Reply

-- GitHub at the endpoint, over the states of what it keeps. A body is the map that it encodes.
pub record Server (S : Type 0) : Type 0 where
  pub get : String → S → Reply
  pub put : String → Dict String → S → Reply × S

-- `blobSHA`
unfoldable pub blob_sha : Codec → Bytes → String
blob_sha codec raw = codec.sha1 (codes ("blob " <> decimal (length raw)) ++ (0 ∷ raw))

unfoldable pub body_of : Read → ℕ → Result (Bytes × ℕ)
body_of (read b) status = ok (b, status)
body_of too_big status = err "invalid checkpoint response size/body"
body_of broken status = err "invalid checkpoint response size/body"

-- `request`: the body and the status of a reply.
unfoldable pub received : Reply → Result (Bytes × ℕ)
received no_reply = err "checkpoint request failed; outcome may be unknown"
received (response status body) = body_of (read_bounded body (2 * max_bytes)) status

unfoldable pub bad_file : File → Bool
bad_file f =
    not (f.kind == "file")
    || not (f.encoding == "base64")
    || ltb f.size 1
    || ltb max_bytes f.size
    || not (match_string revision f.sha)

abbrev integrity_error : String
integrity_error = "checkpoint content integrity mismatch"

unfoldable pub content_of : Codec → File → Result (Bytes × String)
content_of codec f = do
  raw ← or_err (codec.decode_base64 f.content) integrity_error
  refuse_if (not (length raw == f.size) || not (blob_sha codec raw == f.sha)) integrity_error
  ok (raw, f.sha)

-- `Load`
unfoldable pub load : {S : Type 0} → Codec → Server S → GitHub → S → Result (Bytes × String)
load codec server g st = do
  (b, status) ← received (server.get (g.endpoint <> ("?ref=" <> branch)) st)
  refuse_if (not (status == 200)) "checkpoint read HTTP %d; no automatic initialization"
  f ← or_err (codec.decode_file b) "invalid checkpoint file response"
  refuse_if (bad_file f) "unsupported checkpoint file"
  content_of codec f

abbrev with_sha : String → Dict String → Dict String
with_sha version payload = if version == "" then payload else ("sha", version) ∷ payload

unfoldable pub payload : Codec → String → Bytes → Dict String
payload codec version raw = with_sha version (
    ("message", "chore(state): checkpoint Redump source scheduling")
    ∷ ("branch", branch)
    ∷ ("content", codec.encode_base64 raw)
    ∷ [])

unfoldable pub check_receipt : Codec → Bytes → Option String → Result String
check_receipt codec raw none = err "checkpoint receipt invalid; outcome may be unknown"
check_receipt codec raw (some sha) =
    if sha == blob_sha codec raw
    then ok sha
    else err "checkpoint receipt invalid; outcome may be unknown"

-- What `CompareAndSwap` makes of the reply.
unfoldable pub swapped : Codec → Bytes → Reply → Result String
swapped codec raw reply = do
  (b, status) ← received reply
  refuse_if (status == 409 || status == 422) conflict
  refuse_if (not (status == 200) && not (status == 201)) "checkpoint write HTTP"
  check_receipt codec raw (codec.decode_receipt b)

unfoldable pub bad_write : String → Bytes → Bool
bad_write version raw =
    ltb (length raw) 1
    || ltb max_bytes (length raw)
    || (not (version == "") && not (match_string revision version))

abbrev pub answer : {S : Type 0} → Codec → Bytes → Reply × S → Result String × S
answer codec raw (reply, st) = (swapped codec raw reply, st)

unfoldable pub refuse_write :
    {S : Type 0} → Bool → String → S → Result String × S → Result String × S
refuse_write true e st k = (err e, st)
refuse_write false e st k = k

-- `CompareAndSwap`
unfoldable pub compare_and_swap :
    {S : Type 0} → Codec → Server S → GitHub → String → Bytes → S → Result String × S
compare_and_swap codec server g version raw st =
    refuse_write (bad_write version raw) "invalid checkpoint size/version" st
      (answer codec raw (server.put g.endpoint (payload codec version raw) st))

-- The store that the scheduler takes.
unfoldable pub github : {S : Type 0} → Codec → Server S → GitHub → CheckpointStore S
github codec server g = record {
  load = load codec server g;
  compare_and_swap = compare_and_swap codec server g;
}
