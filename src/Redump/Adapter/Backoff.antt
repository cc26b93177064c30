-- ===== src/Redump/Adapter/Backoff.antt =====
-- How many requests a batch makes, and when it makes none.
use romd_dat_catalogs.Prelude.{
  ℕ, suc, ◌+◌, ◌≤◌, ◌≡◌, refl, ◌∙◌, ◌<◌, ◌⊎◌, String, ◌<>◌, true, false, List, [], ◌∷◌, arith,
  length, lt→ltb, string_eq, nat_eq, Result, ok, err,
}
use romd_dat_catalogs.Redump.{Catalog}
use romd_dat_catalogs.Redump.Retry.{retry_at}
use romd_dat_catalogs.Redump.Adapter.{
  Outcome, Reply, no_reply, response, World, Batch, fetch, consult, conclude, acquire_each,
  finish_round, acquire, start_batch,
}

-- The variables after a round are those before the rest, or those behind it.
finish_round_rule :
    {S : Type 0} (P : Batch S → Type 0) (seen : Result (Unit {0})) (r : Result Outcome)
    (later : Result (List Outcome) × Batch S) (b : Batch S)
    → P b
    → P later.1
    → P (finish_round seen r later b).1
unfolding finish_round
finish_round_rule P (err e) r later b here there = here
finish_round_rule P (ok _) (err e) later b here there = here
finish_round_rule P (ok _) (ok r) (l, b') b here there = there

module _ {S : Type 0} (w : World) (origin : String)
    (observe : Outcome → S → Result (Unit {0}) × S) where
  -- The batch has stopped, and asks for nothing.
  pub record Rests (b b' : Batch S) : Type 0 where
    pub requests : b'.requests ≡ b.requests
    pub cooldown : b'.cooldown ≡ b.cooldown
    pub stopped : b'.stopped ≡ true

  consult-Rests :
      (i : ℕ) (c : Catalog) (b : Batch S) → b.stopped ≡ true → Rests b (consult w origin i c b).1
  unfolding consult
  consult-Rests i c b h = ground arith

  -- Once the batch has stopped, no request is made and the cooldown stays.
  acquire_each-Rests :
      (i : ℕ) (catalogs : List Catalog) (b : Batch S)
      → b.stopped ≡ true
      → Rests b (acquire_each w origin observe i catalogs b).1
  unfolding acquire_each
  acquire_each-Rests i [] b h = record { requests = refl; cooldown = refl; stopped = h }
  acquire_each-Rests i (c ∷ rest) b h =
      let (r, b₁) = consult w origin i c b in
      let (seen, s) = observe r b₁.watcher in
      let b₂ = record b₁ { watcher = s } in
      let g = consult-Rests i c b h in
      let later = acquire_each-Rests (suc i) rest b₂ g.stopped in
      finish_round_rule (Rests b) seen (conclude w i r)
        (acquire_each w origin observe (suc i) rest b₂) b₂
        (record { requests = g.requests; cooldown = g.cooldown; stopped = g.stopped })
        (record {
          requests = later.requests ∙ g.requests;
          cooldown = later.cooldown ∙ g.cooldown;
          stopped = later.stopped;
        })

  consult-requests :
      (i : ℕ) (c : Catalog) (b : Batch S)
      → length (consult w origin i c b).1.requests ≤ length b.requests + 1
  unfolding consult
  consult-requests i c b = ground arith

  -- A batch makes no more requests than it has catalogs.
  acquire_each-requests :
      (i : ℕ) (catalogs : List Catalog) (b : Batch S)
      → length (acquire_each w origin observe i catalogs b).1.requests
        ≤ length b.requests + length catalogs
  unfolding acquire_each
  acquire_each-requests i [] b = omega arith
  acquire_each-requests i (c ∷ rest) b =
      let (r, b₁) = consult w origin i c b in
      let (seen, s) = observe r b₁.watcher in
      let b₂ = record b₁ { watcher = s } in
      let one = consult-requests i c b in
      let later = acquire_each-requests (suc i) rest b₂ in
      finish_round_rule (λ t. length t.requests ≤ length b.requests + suc (length rest)) seen
        (conclude w i r) (acquire_each w origin observe (suc i) rest b₂) b₂ (omega arith)
        (omega (arith, one, later))

  -- The time at which a reply lets its provider be asked again.
  abbrev pub retry_time : ℕ → Reply → ℕ
  retry_time i no_reply = 0
  retry_time i (response status retry_after encoding n body) =
      retry_at w.parse_http_date retry_after (w.now i)

  -- A reply that limits the provider's callers.
  abbrev pub IsLimit : Reply → Type 0
  IsLimit no_reply = ⊥
  IsLimit (response status retry_after encoding n body) = (status ≡ 429) ⊎ (status ≡ 503)

  consult_limit :
      (i : ℕ) (c : Catalog) (b : Batch S) (reply : Reply)
      → b.stopped ≡ false
      → w.cancelled i ≡ false
      → w.reply i ≡ reply
      → IsLimit reply
      → let b' = (consult w origin i c b).1 in
        (b'.stopped ≡ true)
        × (b'.requests ≡ (origin <> ("/datfile/" <> c.system)) ∷ b.requests)
        × (b'.cooldown ≡ retry_time i reply)
  unfolding consult fetch
  consult_limit i c b no_reply going live e h = absurd h
  consult_limit i c b (response status retry_after encoding n body) going live e h = ground arith

  -- After a 429 or a 503 the batch makes no further request, whatever catalogs are left, and the
  -- time that its Retry-After names is the cooldown that the adapter keeps.
  pub acquire_each-limit :
      (i : ℕ) (c : Catalog) (rest : List Catalog) (b : Batch S)
      → b.stopped ≡ false
      → w.cancelled i ≡ false
      → IsLimit (w.reply i)
      → let b' = (acquire_each w origin observe i (c ∷ rest) b).1 in
        (b'.requests ≡ (origin <> ("/datfile/" <> c.system)) ∷ b.requests)
        × (b'.cooldown ≡ retry_time i (w.reply i))
        × (b'.stopped ≡ true)
  unfolding acquire_each
  acquire_each-limit i c rest b going live h =
      let (r, b₁) = consult w origin i c b in
      let (seen, s) = observe r b₁.watcher in
      let b₂ = record b₁ { watcher = s } in
      let (stop, asked, cool) = consult_limit i c b (w.reply i) going live refl h in
      let later = acquire_each-Rests (suc i) rest b₂ stop in
      finish_round_rule
        (λ t.
          (t.requests ≡ (origin <> ("/datfile/" <> c.system)) ∷ b.requests)
          × (t.cooldown ≡ retry_time i (w.reply i))
          × (t.stopped ≡ true))
        seen (conclude w i r) (acquire_each w origin observe (suc i) rest b₂) b₂ (asked, cool, stop)
        (later.requests ∙ asked, later.cooldown ∙ cool, later.stopped)

  -- A batch that starts within the cooldown makes no request and keeps the cooldown; any batch
  -- makes at most as many requests as it has catalogs.
  pub acquire_requests :
      (started cooldown : ℕ) (catalogs : List Catalog) (s : S)
      → let b = (acquire w origin observe started cooldown catalogs s).1 in
        (length b.requests ≤ length catalogs)
        × (started < cooldown → (b.requests ≡ []) × (b.cooldown ≡ cooldown))
  unfolding acquire
  acquire_requests started cooldown catalogs s =
      let b = start_batch started cooldown s in
      (
        ground (arith, acquire_each-requests 0 catalogs b),
        λ early.
            let rests = acquire_each-Rests 0 catalogs b (lt→ltb started cooldown early) in
            (ground (arith, rests.requests), ground (arith, rests.cooldown)),
      )
