-- ===== src/Distribution/Origin.antt =====
-- internal/distribution/origin.go: the site that a publication restores its state from.
use romd_dat_catalogs.Prelude.{
  ℕ, String, ◌<>◌, Bool, true, false, not, ◌&&◌, ◌||◌, if◌then◌else◌, ◌==◌, string_eq, nat_eq,
  Result, ok, ◌>>=◌, ◌>>◌, refuse_if, refuse_if-passed, >>=-eq-ok, ◌≡◌, ◌≢◌, ap, ◌∙◌, ◌⊎◌, inl, inr,
  if-cases, arith,
}
use romd_dat_catalogs.Prelude.Text.{codes, has_prefix, trim_right_slash}

abbrev is_https : String → Bool
is_https s = has_prefix (codes s) (codes "https://")

-- The part behind the checks of the flags: the destination must answer 404 to one request.
unfoldable pub migrate_origin : (String → Result ℕ) → String → String → Result String
migrate_origin probe site previous = do
  refuse_if (site == previous) "migration requires a different destination"
  status ← probe (site <> "/metadata/timestamp.json")
  refuse_if (not (status == 404)) "bootstrap/migration requires destination timestamp HTTP 404"
  ok previous

-- The two trimmed texts.
unfoldable pub restore_from : (String → Result ℕ) → String → String → Bool → Result String
restore_from probe site previous bootstrap = do
  refuse_if (not (is_https site) || (not (previous == "") && not (is_https previous)))
      "HTTPS publication sites required"
  refuse_if (bootstrap && not (previous == "")) "bootstrap and migration are exclusive"
  (if not bootstrap && previous == "" then ok site else migrate_origin probe site previous)

-- `RestoreOrigin`. The parameter is a GET without redirects: an error, or the response's status.
unfoldable pub restore_origin : (String → Result ℕ) → String → String → Bool → Result String
unfolding trim_right_slash
restore_origin probe site previous bootstrap =
    restore_from probe (trim_right_slash site) (trim_right_slash previous) bootstrap

-- The answer is the site itself, where neither a bootstrap nor a migration was asked for ...
pub record IsOwn (site previous origin : String) (bootstrap : Bool) : Type 0 where
  pub is_site : origin ≡ site
  pub no_bootstrap : bootstrap ≡ false
  pub no_previous : previous ≡ ""

-- ... or the previous one, "" for a bootstrap, of a destination that was shown to be absent.
pub record IsAbsent (probe : String → Result ℕ) (site previous origin : String) (bootstrap : Bool)
    : Type 0 where
  pub is_previous : origin ≡ previous
  pub other : site ≢ previous
  pub absent : probe (site <> "/metadata/timestamp.json") ≡ ok 404
  pub fresh : bootstrap ≡ true → origin ≡ ""

migrate_origin-eq-ok :
    (probe : String → Result ℕ) (site previous origin : String)
    → migrate_origin probe site previous ≡ ok origin
    → (origin ≡ previous)
      × (site ≢ previous)
      × (probe (site <> "/metadata/timestamp.json") ≡ ok 404)
unfolding migrate_origin
migrate_origin-eq-ok probe site previous origin e =
    let (other, e₁) = refuse_if-passed _ _ _ e in
    let (status, e₂, e₃) = >>=-eq-ok (probe (site <> "/metadata/timestamp.json")) _ e₁ in
    let (absent, e₄) = refuse_if-passed _ _ _ e₃ in
    let is_404 : status ≡ 404 = ground (arith, absent) in
    (cc, ground (arith, other), e₂ ∙ ap ok is_404)

-- The origin is the site itself only without a bootstrap and without a migration; else it is the
-- previous site, "" for a bootstrap, and the site answered 404 for its timestamp. So an existing
-- destination is never passed over. The sites are those given, without slashes at their ends.
pub restore_origin_cases :
    (probe : String → Result ℕ) (site previous origin : String) (bootstrap : Bool)
    → restore_origin probe site previous bootstrap ≡ ok origin
    → IsOwn (trim_right_slash site) (trim_right_slash previous) origin bootstrap
      ⊎ IsAbsent probe (trim_right_slash site) (trim_right_slash previous) origin bootstrap
unfolding restore_origin restore_from
restore_origin_cases probe given_site given_previous origin bootstrap e =
    let site = trim_right_slash given_site in
    let previous = trim_right_slash given_previous in
    let (_, e₁) = refuse_if-passed _ _ _ e in
    let (exclusive, e₂) = refuse_if-passed _ _ _ e₁ in
    if-cases
      (λ m.
        m ≡ ok origin
        → IsOwn site previous origin bootstrap ⊎ IsAbsent probe site previous origin bootstrap)
      (not bootstrap && previous == "") (ok site) (migrate_origin probe site previous)
      (λ own e₃. inl (record {
        is_site = cc;
        no_bootstrap = ground (arith, own);
        no_previous = ground (arith, own);
      }))
      (λ _ e₃.
        let (is_previous, other, absent) = migrate_origin-eq-ok probe site previous origin e₃ in
        inr (record {
          is_previous = is_previous;
          other = other;
          absent = absent;
          fresh = λ b. ground (arith, exclusive, is_previous);
        }))
      e₂
