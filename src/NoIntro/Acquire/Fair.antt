-- ===== src/NoIntro/Acquire/Fair.antt =====
-- What every attempt keeps: the spacing of the requests, their number and what they submit; and
-- what its result says.
use romd_dat_catalogs.Prelude.{
  ℕ, suc, ◌+◌, ◌≤◌, ◌≡◌, refl, sym, ◌⊎◌, inl, inr, String, false, not, ◌&&◌, Option, none, some,
  List, [], ◌∷◌, All, arith, length, ltb, if◌then◌else◌, ◌==◌, string_eq, nat_eq, ok, if-cases,
}
use romd_dat_catalogs.Prelude.Dict.{Dict}
use romd_dat_catalogs.Publisher.{Stream, Read, read, too_big, broken, read_bounded}
use romd_dat_catalogs.Definitions.{Catalog}
use romd_dat_catalogs.NoIntro.Forms.Prepare.{prepare_form}
use romd_dat_catalogs.NoIntro.Forms.Download.{download_form}
use romd_dat_catalogs.NoIntro.Acquire.{
  Reply, no_reply, response, World, Diagnostic, Acquired, Request, Adapter, Page, page, refused,
}
use romd_dat_catalogs.NoIntro.Acquire.Session.{
  cooldown, receive, unread, read_page, is_over_limit, send, request, limits, page_of,
}

-- Each request was sent a gap after the one before, and `bound` is a gap behind the last.
abbrev pub Spaced : ℕ → ℕ → List Request → Type 0
Spaced gap bound [] = Unit
Spaced gap bound (q ∷ l) = (q.sent_at + gap ≤ bound) × Spaced gap q.sent_at l

Spaced-le : (gap b b' : ℕ) (l : List Request) → b ≤ b' → Spaced gap b l → Spaced gap b' l
Spaced-le gap b b' [] h s = tt
Spaced-le gap b b' (q ∷ l) h (le, s) = (omega arith, s)

module _ (w : World) (c : Catalog) where
  -- A form is submitted only as a page of the provider's was recognized to hold it.
  abbrev pub IsReviewed : String → Option (Dict String) → Type 0
  IsReviewed step none = Unit
  IsReviewed step (some v) =
      ((step ≡ "prepare") × (text : String) × (prepare_form w.html text c ≡ ok v))
      ⊎ ((step ≡ "download") × (text : String) × (download_form w.html text ≡ ok v))

  -- The adapter behind `n` requests at most.
  pub record Kept (gap n : ℕ) (a : Adapter) : Type 0 where
    pub same_gap : a.gap ≡ gap
    pub spaced : Spaced gap a.next a.requests
    pub reviewed : All (λ q. IsReviewed q.step q.values) a.requests
    pub bounded : length a.requests ≤ n

  pub Kept-le : (gap n m : ℕ) (a : Adapter) → n ≤ m → Kept gap n a → Kept gap m a
  Kept-le gap n m a le k = record {
    same_gap = k.same_gap;
    spaced = k.spaced;
    reviewed = k.reviewed;
    bounded = let b = k.bounded in omega arith;
  }

  send-Kept :
      (gap n : ℕ) (step target : String) (values : Option (Dict String)) (a : Adapter)
      → IsReviewed step values
      → Kept gap n a
      → Kept gap (suc n) (send w step target values a)
  unfolding send
  send-Kept gap n step target values a good k =
      let i = length a.requests in
      let now = a.clock + w.idle i in
      let sent_at = if ltb now a.next then a.next + w.late i else now in
      let after : a.next ≤ sent_at = ground arith in
      let same = k.same_gap in
      record {
        same_gap = same;
        spaced = (omega (arith, same), Spaced-le gap a.next sent_at a.requests after k.spaced);
        reviewed = (good, k.reviewed);
        bounded = let b = k.bounded in omega arith;
      }

  -- The clock stands behind the request that has just left.
  send-Spaced :
      (gap n : ℕ) (step target : String) (values : Option (Dict String)) (a : Adapter)
      → Kept gap n a
      → (b : ℕ) → (send w step target values a).clock + gap ≤ b
      → Spaced gap b (send w step target values a).requests
  unfolding send
  send-Spaced gap n step target values a k b h =
      let i = length a.requests in
      let now = a.clock + w.idle i in
      let sent_at = if ltb now a.next then a.next + w.late i else now in
      let after : a.next ≤ sent_at = ground arith in
      (omega arith, Spaced-le gap a.next sent_at a.requests after k.spaced)

  cooldown-le :
      (gap : ℕ) (retry_after : String) (now : ℕ) → now + gap ≤ cooldown w gap retry_after now
  unfolding cooldown
  cooldown-le gap retry_after now = ground arith

  -- Nothing has been said of the result yet.
  abbrev pub IsClear : Acquired → Type 0
  IsClear r =
      (r.attempt.retry_at ≡ none)
      × (r.attempt.path ≡ none)
      × (r.attempt.failure ≡ none)
      × (r.code ≡ "")

  -- A retry time is the adapter's own, and stands only beside its code.
  abbrev pub IsStamped : String → Adapter → Acquired → Type 0
  IsStamped code a r =
      (r.attempt.retry_at ≡ none)
      ⊎ ((code ≡ "provider_backoff") × (r.attempt.retry_at ≡ some (w.format_time a.next)))

  abbrev pub IsRefusal : String → Adapter → Acquired → Type 0
  IsRefusal code a r = ((code == "") ≡ false) × (r.attempt.path ≡ none) × IsStamped code a r

  abbrev pub Answers : Page → Adapter → Acquired → Type 0
  Answers (page status location body) a r = IsClear r
  Answers (refused code) a r = IsRefusal code a r

  -- What a request leaves behind.
  unfoldable pub Good : ℕ → ℕ → Page × Adapter × Acquired → Type 0
  Good gap n t = Kept gap n t.1 × Answers t.0 t.1 t.2

  refusal :
      (code : String) (a : Adapter) (r : Acquired)
      → (code == "") ≡ false
      → IsClear r
      → IsRefusal code a r
  refusal code a r named (stamp, path, _, _) = (named, path, inl stamp)

  page_of-Answers :
      (status : ℕ) (location : String) (b : Read) (a : Adapter) (r : Acquired)
      → IsClear r
      → Answers (page_of status location b) a r
  unfolding string_eq
  page_of-Answers status location (read b) a r h = h
  page_of-Answers status location too_big a r h = refusal "size_limit" a r refl h
  page_of-Answers status location broken a r h = refusal "incomplete_response" a r refl h

  Names : Option String → Type 0
  Names none = Unit
  Names (some code) = (code == "") ≡ false

  unread-Names :
      (limit status : ℕ) (encoding : String) (size : Option ℕ)
      → Names (unread limit status encoding size)
  unfolding unread Names string_eq
  unread-Names limit status encoding size =
      if-cases Names (not (status == 200) && not (status == 302)) _ _ (λ _. refl)
        (λ _.
          if-cases Names (not (encoding == "") && not (encoding == "identity")) _ _ (λ _. refl)
            (λ _.
              if-cases Names (is_over_limit limit size) (some "size_limit") none (λ _. refl)
                (λ _. tt)))

  read_page-Good :
      (gap n : ℕ) (step : String) (limit status : ℕ) (location : String) (body : Stream)
      (o : Option String) (d : Diagnostic) (a : Adapter) (r : Acquired)
      → Names o
      → Kept gap n a
      → IsClear r
      → Good gap n (read_page w c step limit status location body o d a r)
  unfolding read_page Good Names
  read_page-Good gap n step limit status location body (some code) d a r named k h =
      (k, refusal code a r named h)
  read_page-Good gap n step limit status location body none d a r named k h =
      (k, page_of-Answers status location (read_bounded body limit) a _ h)

  receive-Good :
      (gap n : ℕ) (step : String) (limit : ℕ) (reply : Reply) (a : Adapter) (r : Acquired)
      → Kept gap n a
      → ((b : ℕ) → a.clock + gap ≤ b → Spaced gap b a.requests)
      → IsClear r
      → Good gap n (receive w c step limit reply a r)
  unfolding receive Good string_eq
  receive-Good gap n step limit no_reply a r k s h = (k, refusal "request_failed" a r refl h)
  receive-Good gap n step limit (response status retry_after location encoding size body) a r k s
        h =
      let same = k.same_gap in
      if-cases (Good gap n) (limits status) _ _
        (λ _. (
          record {
            same_gap = same;
            spaced = s _ (rw (sym same) (cooldown-le a.gap retry_after a.clock));
            reviewed = k.reviewed;
            bounded = k.bounded;
          },
          (refl, h.1, inr (refl, refl)),
        ))
        (λ _.
          read_page-Good gap n step limit status location body (unread limit status encoding size) _
            a r (unread-Names limit status encoding size) k h)

  pub request-Good :
      (gap n : ℕ) (step target : String) (values : Option (Dict String)) (limit : ℕ) (a : Adapter)
      (r : Acquired)
      → IsReviewed step values
      → Kept gap n a
      → IsClear r
      → Good gap (suc n) (request w c step target values limit a r)
  unfolding request Good string_eq
  request-Good gap n step target values limit a r good k h =
      let i = length a.requests in
      let idle = Kept-le gap n (suc n) a (omega arith) k in
      let a' = send w step target values a in
      let sent = send-Kept gap n step target values a good k in
      if-cases (Good gap (suc n)) (ltb (a.clock + w.idle i) a.next && w.is_cut_short i) _ _
        (λ _. (idle, refusal "cancelled" a r refl h))
        (λ _.
          if-cases (Good gap (suc n)) (w.is_bad_target target) (refused "request_failed", a, r)
            (receive w c step limit (w.reply i) a' r)
            (λ _. (idle, refusal "request_failed" a r refl h))
            (λ _.
              receive-Good gap (suc n) step limit (w.reply i) a' r sent
                (send-Spaced gap n step target values a k) h))
