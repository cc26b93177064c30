-- ===== src/Tests/Remote.antt =====
-- The checkpoint store on GitHub over a server that keeps the files of branches by their addresses.
use romd_dat_catalogs.Prelude.{
  ◌⊎◌, Bool, true, option_eq, inl, Bool-cases, ◌<>◌, ℕ, zero, suc, ◌+◌, ◌≡◌, refl, sym, ◌∙◌, ap,
  ap₂, ◌==◌, nat_eq, if◌then◌else◌, inr, String, false, Option, none, some, [], ◌∷◌, arith, length,
  string_eq,
}
use Prim.Native.Char.{code}
use romd_dat_catalogs.Prelude.Dict.{Dict, lookup, insert, lookup-insert_self}
use romd_dat_catalogs.Prelude.Regex.{match_string, matches, nullable, after}
use romd_dat_catalogs.Publisher.{Bytes, Stream}
use romd_dat_catalogs.Redump.Custody.Lawful.{IsStore}
use romd_dat_catalogs.Checkpoint.{
  GitHub, revision, Codec, Reply, no_reply, response, Server, blob_sha, github,
}
use romd_dat_catalogs.Checkpoint.Store.{ap_option, IsServer, IsCodec, Replaces, github-IsStore}

-- A number is as many of one letter, and ends with another.
abbrev write_number : ℕ → String → String
write_number zero s = String.◌∷◌ "b" s
write_number (suc n) s = String.◌∷◌ "a" (write_number n s)

abbrev write_each : Bytes → String
write_each [] = ""
write_each (n ∷ l) = write_number n (write_each l)

abbrev read_from : ℕ → String → Bytes
read_from acc String.[] = []
read_from acc (String.◌∷◌ c s) =
    let more = read_from (suc acc) s in
    let next = read_from 0 s in if code c == b'a' then more else acc ∷ next

read_from-write_number :
    (n acc : ℕ) (s : String) → read_from acc (write_number n s) ≡ (acc + n) ∷ read_from 0 s
unfolding nat_eq
read_from-write_number zero acc s = ap (λ m. m ∷ read_from 0 s) (omega arith)
read_from-write_number (suc n) acc s =
    read_from-write_number n (suc acc) s ∙ ap (λ m. m ∷ read_from 0 s) (omega arith)

read_from-write_each : (raw : Bytes) → read_from 0 (write_each raw) ≡ raw
read_from-write_each [] = refl
read_from-write_each (n ∷ l) =
    read_from-write_number n 0 (write_each l)
    ∙ ap₂ (λ m k. m ∷ k) (omega arith) (read_from-write_each l)

abbrev some_sha : String
some_sha = "0123456789abcdef0123456789abcdef01234567"

abbrev codec : Codec
codec = record {
  sha1 = λ b. some_sha;
  encode_base64 = write_each;
  decode_base64 = λ s. some (read_from 0 s);
  decode_file = λ b. some (record {
    kind = "file";
    encoding = "base64";
    content = write_each b;
    sha = some_sha;
    size = length b;
  });
  decode_receipt = λ b. some some_sha;
}

abbrev reply_of : Option Bytes → Reply
reply_of none = response 404 (record { delivered = []; fails = false })
reply_of (some raw) = response 200 (record { delivered = raw; fails = false })

abbrev Files : Type 0
Files = Dict Bytes

-- The address of the branch that a write names, or of the default branch.
abbrev target : String → Option String → String
target endpoint none = endpoint <> ("?ref=" <> "main")
target endpoint (some branch) = endpoint <> ("?ref=" <> branch)

abbrev refused : Files → Reply × Files
refused files = (response 409 (record { delivered = []; fails = false }), files)

abbrev replaced : String → Option String → Files → Reply × Files
replaced url none files = refused files
replaced url (some content) files = (
  response 201 (record { delivered = []; fails = false }),
  insert url (read_from 0 content) files,
)

-- The files of all branches, by their addresses; a write must name the file that it replaces.
abbrev server : Server Files
server = record {
  get = λ url files. reply_of (lookup url files);
  put = λ endpoint p files.
      let url = target endpoint (lookup "branch" p) in
      if ap_option (blob_sha codec) (lookup url files) == lookup "sha" p
      then replaced url (lookup "content" p) files
      else refused files;
}

codec-IsCodec : IsCodec codec
unfolding revision match_string matches nullable after
codec-IsCodec = record { revision = λ b. refl; inverse = λ raw. ap some (read_from-write_each raw) }

abbrev is_current : String → Dict String → Files → Bool
is_current url p files = ap_option (blob_sha codec) (lookup url files) == lookup "sha" p

put_by :
    (endpoint branch content : String) (p : Dict String) (raw : Bytes) (files : Files)
    → lookup "branch" p ≡ some branch
    → lookup "content" p ≡ some content
    → codec.decode_base64 content ≡ some raw
    → (b : Bool) → is_current (endpoint <> ("?ref=" <> branch)) p files ≡ b
    → server.put endpoint p files ≡ (
        if b
        then (
          response 201 (record { delivered = []; fails = false }),
          insert (endpoint <> ("?ref=" <> branch)) raw files,
        )
        else refused files)
put_by endpoint branch content p raw files to given back b current =
    let same : read_from 0 content ≡ raw = cc in rw (to, given, current, same) refl

current_sha :
    (url : String) (p : Dict String) (files : Files)
    → is_current url p files ≡ true
    → ap_option (blob_sha codec) (lookup url files) ≡ lookup "sha" p
unfolding option_eq
current_sha url p files h =
    elim (option_eq.dec (ap_option (blob_sha codec) (lookup url files)) (lookup "sha" p)) [
      | yes e ↦ e
      | no n ↦ absurd (ground (arith, h, n))
    ]

status_of : Reply → ℕ
status_of no_reply = 0
status_of (response status body) = status

not_conflict :
    (status : ℕ) (body : Stream)
    → response status body ≡ response 409 (record { delivered = []; fails = false })
    → (status ≡ 200) ⊎ (status ≡ 201)
    → ⊥
unfolding status_of
not_conflict status body h (inl e) = let s = ap status_of h in omega (arith, s, e)
not_conflict status body h (inr e) = let s = ap status_of h in omega (arith, s, e)

server-IsServer : IsServer codec server
unfolding blob_sha
server-IsServer = record {
  file = λ endpoint branch files. lookup (endpoint <> ("?ref=" <> branch)) files;
  got = λ endpoint branch files raw h small. (
    raw,
    record {
      kind = "file";
      encoding = "base64";
      content = write_each raw;
      sha = some_sha;
      size = length raw;
    },
    rw h refl,
    omega arith,
    refl,
    record {
      kind = refl;
      encoding = refl;
      content = ap some (read_from-write_each raw);
      sha = refl;
      size = refl;
    },
  );
  same = λ endpoint branch files files' h. ap reply_of h;
  written = λ endpoint branch content p raw files files' reply to given back put.
      let url = endpoint <> ("?ref=" <> branch) in
      elim (Bool-cases (is_current url p files)) [
        | inl e ↦
            let moved = put_by endpoint branch content p raw files to given back true e in
            inr (ap (λ t. lookup url t.1) (sym put ∙ moved) ∙ lookup-insert_self url raw files)
        | inr e ↦
            let moved = put_by endpoint branch content p raw files to given back false e in
            inl (ap (λ t. lookup url t.1) (sym put ∙ moved))
      ];
  done = λ endpoint branch content p raw files files' status body to given back put either.
      let url = endpoint <> ("?ref=" <> branch) in
      elim (Bool-cases (is_current url p files)) [
        | inl e ↦
            let moved = put_by endpoint branch content p raw files to given back true e in
            (
              ap (λ t. lookup url t.1) (sym put ∙ moved) ∙ lookup-insert_self url raw files,
              current_sha url p files e,
            )
        | inr e ↦
            let moved = put_by endpoint branch content p raw files to given back false e in
            absurd (not_conflict status body (ap (λ t. t.0) (sym put ∙ moved)) either)
      ];
}

abbrev account : GitHub
account = record { endpoint = "https://api.github.com/repos/o/r/contents/s.json"; token = "t" }

github-IsStore_example :
    IsStore (github codec server account)
    × Replaces codec server account server-IsServer codec-IsCodec (github codec server account)
github-IsStore_example = github-IsStore codec server account server-IsServer codec-IsCodec
