-- ===== src/Alerts/Poller/Feed.antt =====
-- What the polls of a growing feed publish.
use core_dashboard.Prelude.{
  ℕ, zero, suc, ◌≤◌, String, ◌≡◌, refl, sym, ap, subst, ◌∙◌, Bool, true, false, Option, none, some,
  append_assoc, List, [], ◌∷◌, ◌++◌, arith, All, map, reverse, take, length,
}
use core_dashboard.Shared.Events.{AlertType}
use core_dashboard.Shared.Maps.{beq_refl}
use core_dashboard.Alerts.Poller.{
  AlertItem, AlertsPollerService, poll_limit, first_id, is_last, find_index, fresh, publish, poll,
  init,
}

-- A poll: what is new in the feed since the poll before, the newest first, and whether the bot
-- answers. Each poll ends before the next one.
abbrev pub Poll : Type 0
Poll = List AlertItem × Bool

abbrev answer : List AlertItem → Bool → Option (List AlertItem)
answer log true = some (take poll_limit log)
answer log false = none

-- The types that the polls publish; `log` is the feed before them.
abbrev pub polls : List Poll → List AlertItem → AlertsPollerService → List AlertType
polls [] log s = []
polls ((batch, answers) ∷ rest) log s =
    let (t, published) = poll (answer (batch ++ log) answers) s in
    published ++ polls rest (batch ++ log) t

-- What came since the last poll that was answered fits in one answer when the next one is, and
-- none of it carries the id of the newest item of that last poll.
abbrev pub IsFeed : List Poll → List AlertItem → List AlertItem → Type 0
IsFeed [] missed log = Unit
IsFeed ((batch, false) ∷ rest) missed log = IsFeed rest (batch ++ missed) log
IsFeed ((batch, true) ∷ rest) missed log =
    (length (batch ++ missed) ≤ poll_limit)
    × All (λ item. is_last (first_id log) item ≡ false) (batch ++ missed)
    × IsFeed rest [] ((batch ++ missed) ++ log)

-- The feed from the first poll that is answered on.
abbrev pub IsFeedFrom : List Poll → List AlertItem → Type 0
IsFeedFrom [] log = Unit
IsFeedFrom ((batch, false) ∷ rest) log = IsFeedFrom rest (batch ++ log)
IsFeedFrom ((batch, true) ∷ rest) log = IsFeed rest [] (batch ++ log)

-- Everything that came, from the oldest on, up to the last poll that is answered.
abbrev pub told : List Poll → List AlertItem → List AlertType
told [] missed = []
told ((batch, false) ∷ rest) missed = told rest (batch ++ missed)
told ((batch, true) ∷ rest) missed =
    map (λ item. item.type) (reverse (batch ++ missed)) ++ told rest []

-- The same of what comes after the first poll that is answered.
abbrev pub told_from : List Poll → List AlertType
told_from [] = []
told_from ((batch, false) ∷ rest) = told_from rest
told_from ((batch, true) ∷ rest) = told rest []

fresh-cons :
    (last : Option String) (item : AlertItem) (items : List AlertItem)
    → is_last last item ≡ false
    → fresh last (item ∷ items) ≡ item ∷ fresh last items
unfolding fresh find_index
fresh-cons last item items e = ground arith

fresh-seen : (n : ℕ) (log : List AlertItem) → fresh (first_id log) (take n log) ≡ []
unfolding fresh find_index
fresh-seen zero log = refl
fresh-seen (suc n) [] = refl
fresh-seen (suc n) (item ∷ log) = ground (arith, beq_refl item.id)

fresh-batch :
    (n : ℕ) (batch log : List AlertItem)
    → length batch ≤ n
    → All (λ item. is_last (first_id log) item ≡ false) batch
    → fresh (first_id log) (take n (batch ++ log)) ≡ batch
fresh-batch n [] log h u = fresh-seen n log
fresh-batch zero (item ∷ batch) log h u = absurd (ground arith)
fresh-batch (suc n) (item ∷ batch) log h (e, u) =
    fresh-cons (first_id log) item (take n (batch ++ log)) e
    ∙ ap (◌∷◌ item) (fresh-batch n batch log (omega arith) u)

-- A started service that has seen the newest item.
abbrev seen : List AlertItem → AlertsPollerService
seen log = record { last_seen_id = first_id log; initialized = true }

publish-batch :
    (batch log : List AlertItem)
    → publish batch (first_id (take poll_limit (batch ++ log))) (seen log)
      ≡ (seen (batch ++ log), map (λ item. item.type) (reverse batch))
publish-batch [] log = refl
publish-batch (item ∷ batch) log = refl

poll-batch :
    (batch log : List AlertItem)
    → length batch ≤ poll_limit
    → All (λ item. is_last (first_id log) item ≡ false) batch
    → poll (some (take poll_limit (batch ++ log))) (seen log)
      ≡ (seen (batch ++ log), map (λ item. item.type) (reverse batch))
unfolding poll
poll-batch batch log h u =
    ap (λ b. publish b (first_id (take poll_limit (batch ++ log))) (seen log))
      (fresh-batch poll_limit batch log h u)
    ∙ publish-batch batch log

polls-seen :
    (rest : List Poll) (missed log : List AlertItem)
    → IsFeed rest missed log
    → polls rest (missed ++ log) (seen log) ≡ told rest missed
unfolding poll
polls-seen [] missed log h = refl
polls-seen ((batch, false) ∷ rest) missed log h =
    ap (λ feed. polls rest feed (seen log)) (sym (append_assoc batch missed log))
    ∙ polls-seen rest (batch ++ missed) log h
polls-seen ((batch, true) ∷ rest) missed log (h, u, k) =
    let news = batch ++ missed in
    subst
      (λ feed.
        (poll (some (take poll_limit feed)) (seen log)).1
          ++ polls rest feed (poll (some (take poll_limit feed)) (seen log)).0
        ≡ map (λ item. item.type) (reverse news) ++ told rest [])
      (append_assoc batch missed log)
      (subst
        (λ r.
          r.1 ++ polls rest (news ++ log) r.0
          ≡ map (λ item. item.type) (reverse news) ++ told rest [])
        (sym (poll-batch news log h u))
        (ap (map (λ item. item.type) (reverse news) ++◌) (polls-seen rest [] (news ++ log) k)))

polls-started :
    (rest : List Poll) (log : List AlertItem)
    → IsFeed rest [] log
    → polls rest log (poll (some (take poll_limit log)) init).0 ≡ told rest []
unfolding poll
polls-started rest [] k = polls-seen rest [] [] k
polls-started rest (item ∷ log) k = polls-seen rest [] (item ∷ log) k

-- From the first poll that the bot answers on, whatever comes up to a later poll that it answers is
-- published once, in the order in which it came, whatever polls fail, as long as each poll ends before
-- the next, at most twenty alerts come between two polls that are answered, and none of them has the
-- id of the newest alert of the former; what the first answer holds is not published.
pub polls-init :
    (log : List AlertItem) (rest : List Poll)
    → IsFeedFrom rest log
    → polls rest log init ≡ told_from rest
unfolding poll
polls-init log [] h = refl
polls-init log ((batch, false) ∷ rest) h = polls-init (batch ++ log) rest h
polls-init log ((batch, true) ∷ rest) h = polls-started rest (batch ++ log) h
