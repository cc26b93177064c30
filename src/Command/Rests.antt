-- ===== src/Command/Rests.antt =====
-- No provider is asked before its deadline, nor for what is paused.
use romd_dat_catalogs.Prelude.{
  ap, sym, ◌++◌, ℕ, suc, ◌+◌, ◌-◌, ◌≤◌, ◌≡◌, refl, subst, String, Bool, false, ◌||◌, Option, none,
  some, List, [], ◌∷◌, arith, length, All, leb, if◌then◌else◌, string_eq, Result, ok, err,
}
use romd_dat_catalogs.Prelude.Dict.{Dict, lookup, lookup-insert}
use romd_dat_catalogs.Publisher.{Attempt, Catalog}
use romd_dat_catalogs.Definitions.{Catalog as Definition}
use romd_dat_catalogs.Command.{
  Shell, Selected, Asked, Choice, skip, report, ask, deadline, wait, at_zero, choose, acquire_timed,
  collect, take_round, settle, proceed, Step, halt, next, found,
}

wait-deadline :
    (p q : String) (t : Option ℕ) (d : Dict ℕ)
    → (deadline q d ≤ deadline q (wait p t d)) × (at_zero t ≤ deadline p (wait p t d))
unfolding wait deadline
wait-deadline p q none d = (omega arith, omega arith)
wait-deadline p q (some t) d = ground (arith, lookup-insert q p t d, lookup-insert p p t d)

-- A request that kept a map of deadlines.
abbrev pub Kept : Dict ℕ → Asked → Type 0
Kept d a = deadline a.provider d ≤ a.at

Kept-wait : (p : String) (t : Option ℕ) (d : Dict ℕ) (a : Asked) → Kept (wait p t d) a → Kept d a
Kept-wait p t d a h = let (le, _) = wait-deadline p a.provider t d in omega arith

choose-ask :
    (sh : Shell) (is_paused : Bool) (i : ℕ) (id : String) (def : Definition) (old : Option Catalog)
    (d : Dict ℕ)
    → choose sh is_paused i id def old d ≡ ask
    → (is_paused ≡ false) × (deadline def.provider d ≤ sh.now i)
unfolding choose
choose-ask sh is_paused i id def none d e = (ground (arith, e), ground (arith, e))
choose-ask sh is_paused i id def (some old) d e = (ground (arith, e), ground (arith, e))

module _ (sh : Shell) where
  -- A predicate of the requests and the deadlines behind a round.
  abbrev Leaves : (List Asked → Dict ℕ → Type 0) → (List Asked → Type 0) → Step → Type 0
  Leaves P Q (halt e asked) = Q asked
  Leaves P Q (next a d asked) = P asked d

  proceed-cases :
      (P : List Asked → Dict ℕ → Type 0) (Q : List Asked → Type 0) (s : Step)
      (k : Dict ℕ → List Asked → Result (List Attempt) × List Asked)
      → Leaves P Q s
      → ((d : Dict ℕ) (asked : List Asked) → P asked d → Q (k d asked).1)
      → Q (proceed s k).1
  unfolding proceed
  proceed-cases P Q (halt e asked) k h f = h
  proceed-cases P Q (next none d asked) k h f = f d asked h
  proceed-cases P Q (next (some a) d asked) k h f = f d asked h

  -- What holds of the requests as long as each new one keeps some deadlines, which only grow.
  module _ (W : List Asked → Type 0) (d₀ : Dict ℕ)
      (grows : (a : Asked) (l : List Asked) → Kept d₀ a → W l → W (a ∷ l)) where
    abbrev Rested : List Asked → Dict ℕ → Type 0
    Rested asked d = W asked × ((a : Asked) → Kept d a → Kept d₀ a)

    settle-Rested :
        (d : Dict ℕ) (p : String) (asked : List Asked) (r : Result (Attempt × Option ℕ))
        → Rested asked d
        → Leaves Rested W (settle p d asked r)
    unfolding settle
    settle-Rested d p asked (err e) (h, le) = h
    settle-Rested d p asked (ok (a, t)) (h, le) = (h, λ b k. le b (Kept-wait p t d b k))

    take_round-Rested :
        (d : Dict ℕ) (i : ℕ) (id : String) (def : Definition) (asked : List Asked) (c : Choice)
        → (c ≡ ask → deadline def.provider d ≤ sh.now i)
        → Rested asked d
        → Leaves Rested W (take_round sh i id def d asked c)
    unfolding take_round
    take_round-Rested d i id def asked skip due h = h
    take_round-Rested d i id def asked (report a) due h = h
    take_round-Rested d i id def asked ask due (h, le) =
        let made : Asked = record { provider = def.provider; id = id; at = sh.now i } in
        settle-Rested d def.provider (made ∷ asked) (acquire_timed sh i def.provider)
          (grows made asked (le made (due refl)) h, le)

  -- A bound on the requests so far and those to come, which are `later`.
  abbrev Adds : ℕ → ℕ → List Asked → Dict ℕ → Type 0
  Adds n later asked d = length asked + later ≤ n

  settle-Adds :
      (n later : ℕ) (d : Dict ℕ) (p : String) (asked : List Asked) (r : Result (Attempt × Option ℕ))
      → length asked + later ≤ n
      → Leaves (Adds n later) (λ asked. length asked ≤ n) (settle p d asked r)
  unfolding settle
  settle-Adds n later d p asked (err e) h = omega arith
  settle-Adds n later d p asked (ok (a, t)) h = h

  take_round-Adds :
      (n later : ℕ) (d : Dict ℕ) (i : ℕ) (id : String) (def : Definition) (asked : List Asked)
      (c : Choice)
      → length asked + later ≤ n
      → (c ≡ ask → suc (length asked) + later ≤ n)
      → Leaves (Adds n later) (λ asked. length asked ≤ n) (take_round sh i id def d asked c)
  unfolding take_round
  take_round-Adds n later d i id def asked skip h k = h
  take_round-Adds n later d i id def asked (report a) h k = h
  take_round-Adds n later d i id def asked ask h k =
      settle-Adds n later d def.provider
        (record { provider = def.provider; id = id; at = sh.now i } ∷ asked)
        (acquire_timed sh i def.provider) (k refl)

module _ (sh : Shell) (sel : Selected) where
  abbrev pub choice : ℕ → String → Dict ℕ → Choice
  choice i id d =
      choose sh (sel.all_paused || leb sel.active i) i id (found (lookup id sel.registry))
        (lookup id sel.published) d

  collect-Rested :
      (W : List Asked → Type 0) (d₀ : Dict ℕ)
      (grows : (a : Asked) (l : List Asked) → Kept d₀ a → W l → W (a ∷ l)) (i : ℕ)
      (ids : List String) (d : Dict ℕ) (asked : List Asked)
      → Rested sh W d₀ grows asked d
      → W (collect sh sel i ids d asked).1
  unfolding collect
  collect-Rested W d₀ grows i [] d asked (h, le) = h
  collect-Rested W d₀ grows i (id ∷ rest) d asked h =
      let def = found (lookup id sel.registry) in
      proceed-cases sh (Rested sh W d₀ grows) W (take_round sh i id def d asked (choice i id d))
        (collect sh sel (suc i) rest)
        (take_round-Rested sh W d₀ grows d i id def asked (choice i id d)
          (λ e.
            (choose-ask sh (sel.all_paused || leb sel.active i) i id def (lookup id sel.published) d
              e).1)
          h)
        (λ d' asked' k. collect-Rested W d₀ grows (suc i) rest d' asked' k)

  -- Every request comes at the deadline of its provider at the earliest, whatever the adapters
  -- answer in between.
  pub collect-rests :
      (i : ℕ) (ids : List String) (d : Dict ℕ) → All (Kept d) (collect sh sel i ids d []).1
  collect-rests i ids d =
      collect-Rested (All (Kept d)) d (λ a l k h. (k, h)) i ids d [] (tt, λ a k. k)

  -- Requests that came after some others, and that waited for a provider's time and for deadlines.
  abbrev pub After : String → ℕ → Dict ℕ → List Asked → List Asked → Type 0
  After p t d base asked =
      (later : List Asked) × (asked ≡ later ++ base)
      × All (λ b. (b.provider ≡ p → t ≤ b.at) × Kept d b) later

  After-grows :
      (p : String) (t : ℕ) (d : Dict ℕ) (base : List Asked) (a : Asked) (l : List Asked)
      → Kept (wait p (some t) d) a
      → After p t d base l
      → After p t d base (a ∷ l)
  After-grows p t d base a l k (later, e, h) =
      let (_, le) = wait-deadline p a.provider (some t) d in
      (
        a ∷ later,
        ap (λ m. a ∷ m) e,
        (
          (
            λ same.
                let k' = subst (λ q. deadline q (wait p (some t) d) ≤ a.at) same k in omega arith,
            Kept-wait p (some t) d a k,
          ),
          h,
        ),
      )

  collect-asked :
      (i : ℕ) (id : String) (rest : List String) (d : Dict ℕ) (a : Attempt) (t : ℕ)
      → choice i id d ≡ ask
      → acquire_timed sh i (found (lookup id sel.registry)).provider ≡ ok (a, some t)
      → (collect sh sel i (id ∷ rest) d []).1
        ≡ (collect sh sel (suc i) rest (wait (found (lookup id sel.registry)).provider (some t) d) (
            record { provider = (found (lookup id sel.registry)).provider; id = id; at = sh.now i }
            ∷ [])).1
  unfolding collect take_round settle proceed
  collect-asked i id rest d a t asks answers = rw asks (rw answers refl)

  -- Where a round asks a provider and the answer names a retry time, every request that the loop
  -- makes behind that one waits for the time if it is to the same provider, and each for its own
  -- provider's deadline.
  pub collect-wait :
      (i : ℕ) (id : String) (rest : List String) (d : Dict ℕ) (a : Attempt) (t : ℕ)
      → choice i id d ≡ ask
      → acquire_timed sh i (found (lookup id sel.registry)).provider ≡ ok (a, some t)
      → After
          (found (lookup id sel.registry)).provider
          t
          d
          (record { provider = (found (lookup id sel.registry)).provider; id = id; at = sh.now i }
            ∷ [])
          (collect sh sel i (id ∷ rest) d []).1
  collect-wait i id rest d a t asks answers =
      let p = (found (lookup id sel.registry)).provider in
      let base : List Asked = record { provider = p; id = id; at = sh.now i } ∷ [] in
      let behind = wait p (some t) d in
      subst (After p t d base) (sym (collect-asked i id rest d a t asks answers)) (
        collect-Rested (After p t d base) behind (After-grows p t d base) (suc i) rest behind base
          (([], refl, tt), λ b k. k))

  allowed : ℕ → ℕ
  allowed i = if sel.all_paused then 0 else sel.active - i

  collect-count :
      (n : ℕ) (i : ℕ) (ids : List String) (d : Dict ℕ) (asked : List Asked)
      → length asked + allowed i ≤ n
      → length (collect sh sel i ids d asked).1 ≤ n
  unfolding collect allowed
  collect-count n i [] d asked h = ground arith
  collect-count n i (id ∷ rest) d asked h =
      let def = found (lookup id sel.registry) in
      proceed-cases sh (λ asked' d'. length asked' + allowed (suc i) ≤ n)
        (λ asked. length asked ≤ n) (take_round sh i id def d asked (choice i id d))
        (collect sh sel (suc i) rest)
        (take_round-Adds sh n (allowed (suc i)) d i id def asked (choice i id d) (ground arith)
          (λ e.
            let (live, _) =
              choose-ask sh (sel.all_paused || leb sel.active i) i id def (lookup id sel.published)
                d e in
            ground (arith, live)))
        (λ d' asked' k. collect-count n (suc i) rest d' asked' k)

  -- The loop makes no more requests in all than there are active catalogs, and none where all are
  -- paused.
  pub collect-requests :
      (ids : List String) (d : Dict ℕ)
      → length (collect sh sel 0 ids d []).1 ≤ (if sel.all_paused then 0 else sel.active)
  unfolding allowed
  collect-requests ids d = collect-count _ 0 ids d [] (ground arith)
