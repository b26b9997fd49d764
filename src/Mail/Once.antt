-- ===== src/Mail/Once.antt =====
-- The outbox row that stands for a search keeps a second request for it away.
use sales_girl_voice_agent.Common.{
  ℕ, ◌+◌, ◌≤◌, ◌≡◌, refl, sym, ◌∙◌, Bool, true, false, Option, none, some, List, [], ◌∷◌, arith,
  text_eq→eq, ==_iff, any, if◌then◌else◌, Bool-cases, inl, inr,
}
use mathlib.Core.Path.{subst}
use sales_girl_voice_agent.Mail.Send.{
  Settings, Sending, Fresh, Key, key_eq, OutboxRow, Recorded, clashes, send_record, Status,
  set_status, send_done, Answer, answer_status, Begun, answers, looks_up, Checked, replies, records,
  send_check,
}
use sales_girl_voice_agent.Mail.Prepare.{DirectoryEmail}
use sales_girl_voice_agent.Mail.World.{
  World, Event, searched, prepares, sends, refreshed, recorded, answered, restarts, step, run,
  new_world, on_sends, on_refreshed, on_checked, on_inserted, on_recorded, on_answered,
}
use sales_girl_voice_agent.Common.{pick}

-- The number of requests for a search.
unfoldable pub count : Key → List Recorded → ℕ
count k [] = 0
count k (r ∷ rs) = if key_eq k r.row.key then 1 + count k rs else count k rs

abbrev pub has : Key → List OutboxRow → Bool
has k = any (λ (r : OutboxRow). key_eq k r.key)

-- At most one request, and none where the outbox has no row.
abbrev IsSingle : Key → List OutboxRow → List Recorded → Type 0
IsSingle k rows posts = (has k rows ≡ false → count k posts ≡ 0) × (count k posts ≤ 1)

-- A row in the outbox, and `n` requests.
abbrev IsKept : Key → ℕ → List OutboxRow → List Recorded → Type 0
IsKept k n rows posts = (has k rows ≡ true) × (count k posts ≡ n)

key_eq→eq : (a b : Key) → key_eq a b ≡ true → a ≡ b
key_eq→eq a b h i = record {
  business_id = text_eq→eq a.business_id b.business_id (ground arith) i;
  agent_id = text_eq→eq a.agent_id b.agent_id (ground arith) i;
  session_id = text_eq→eq a.session_id b.session_id (ground arith) i;
  search_hash = (==_iff a.search_hash b.search_hash).0 (ground arith) i;
}

has_clash :
    (row : OutboxRow) (rows : List OutboxRow)
    → any (clashes row) rows ≡ false
    → has row.key rows ≡ false
has_clash row [] h = refl
has_clash row (r ∷ rs) h = ground (arith, has_clash row rs)

has-set_status :
    (k : Key) (operation : ℕ) (status : Status) (rows : List OutboxRow)
    → has k (set_status operation status rows) ≡ has k rows
unfolding set_status
has-set_status k operation status [] = refl
has-set_status k operation status (r ∷ rs) = ground (arith, has-set_status k operation status rs)

insert-IsSingle :
    (k : Key) (r : Recorded) (rows : List OutboxRow) (posts : List Recorded)
    → any (clashes r.row) rows ≡ false
    → IsSingle k rows posts
    → IsSingle k (r.row ∷ rows) (r ∷ posts)
unfolding count
insert-IsSingle k r rows posts h i = elim (Bool-cases (key_eq k r.row.key)) [
  | inl e ↦
      let none_before =
        subst (λ k'. has k' rows ≡ false) (sym (key_eq→eq k r.row.key e))
          (has_clash r.row rows h) in
      (λ f. ground arith, ground (arith, i.0 none_before))
  | inr e ↦ (λ f. ground (arith, i.0 (ground arith)), ground arith)
]

insert-IsKept :
    (k : Key) (n : ℕ) (r : Recorded) (rows : List OutboxRow) (posts : List Recorded)
    → any (clashes r.row) rows ≡ false
    → IsKept k n rows posts
    → IsKept k n (r.row ∷ rows) (r ∷ posts)
unfolding count
insert-IsKept k n r rows posts h i = elim (Bool-cases (key_eq k r.row.key)) [
  | inl e ↦
      let none_before =
        subst (λ k'. has k' rows ≡ false) (sym (key_eq→eq k r.row.key e))
          (has_clash r.row rows h) in
      absurd (ground arith)
  | inr e ↦ (ground arith, ground arith)
]

-- What the three changes of the outbox and the requests keep, every run keeps.
module _ (P : List OutboxRow → List Recorded → Type 0)
    (insert : (r : Recorded) (rows : List OutboxRow) (posts : List Recorded)
      → any (clashes r.row) rows ≡ false
      → P rows posts
      → P (r.row ∷ rows) (r ∷ posts))
    (die : (row : OutboxRow) (rows : List OutboxRow) (posts : List Recorded)
      → P rows posts
      → P (row ∷ rows) posts)
    (update : (operation : ℕ) (status : Status) (rows : List OutboxRow) (posts : List Recorded)
      → P rows posts
      → P (set_status operation status rows) posts) where
  inserted-P :
      (r : Recorded) (others : List Recorded) (posted : Bool) (w : World)
      → any (clashes r.row) w.outbox ≡ false
      → P w.outbox w.posts
      → P
          (on_inserted (some (r.row ∷ w.outbox)) r others posted w).outbox
          (on_inserted (some (r.row ∷ w.outbox)) r others posted w).posts
  inserted-P r others true w e i = insert r w.outbox w.posts e i
  inserted-P r others false w e i = die r.row w.outbox w.posts i

  recorded-P :
      (o : Option (Recorded × List Recorded)) (posted : Bool) (w : World)
      → P w.outbox w.posts
      → P (on_recorded o posted w).outbox (on_recorded o posted w).posts
  unfolding on_recorded send_record
  recorded-P none posted w i = i
  recorded-P (some (r, others)) posted w i = elim (Bool-cases (any (clashes r.row) w.outbox)) [
    | inl e ↦ rw e i
    | inr e ↦ rw e (inserted-P r others posted w e i)
  ]

  answered-P :
      (o : Option (ℕ × List ℕ)) (a : Answer) (w : World)
      → P w.outbox w.posts
      → P (on_answered o a w).outbox (on_answered o a w).posts
  unfolding on_answered send_done
  answered-P none a w i = i
  answered-P (some (operation, others)) a w i =
      update operation (answer_status a) w.outbox w.posts i

  sends-P :
      (r : DirectoryEmail × Begun) (w : World)
      → P w.outbox w.posts
      → P (on_sends r w).outbox (on_sends r w).posts
  unfolding on_sends
  sends-P (m, answers _) w i = i
  sends-P (m, looks_up l) w i = i

  checked-P :
      (c : Checked) (others : List Sending) (w : World)
      → P w.outbox w.posts
      → P (on_checked c others w).outbox (on_checked c others w).posts
  checked-P (replies _) others w i = i
  checked-P (records r) others w i = i

  refreshed-P :
      (s : Settings) (o : Option (Sending × List Sending)) (fresh : Fresh) (operation : ℕ)
      (w : World)
      → P w.outbox w.posts
      → P (on_refreshed s o fresh operation w).outbox (on_refreshed s o fresh operation w).posts
  unfolding on_refreshed
  refreshed-P s none fresh operation w i = i
  refreshed-P s (some (l, others)) fresh operation w i =
      checked-P (send_check s operation l fresh w.outbox) others w i

  step-P :
      (s : Settings) (e : Event) (w : World)
      → P w.outbox w.posts
      → P (step s e w).outbox (step s e w).posts
  unfolding step
  step-P s (searched body) w i = i
  step-P s (prepares arguments db) w i = i
  step-P s (sends confirmed db key sender) w i = sends-P _ w i
  step-P s (refreshed n fresh operation) w i = refreshed-P s (pick n w.looking) fresh operation w i
  step-P s (recorded n posted) w i = recorded-P (pick n w.checked) posted w i
  step-P s (answered n a) w i = answered-P (pick n w.asked) a w i
  step-P s restarts w i = i

  run-P :
      (s : Settings) (es : List Event) (w : World)
      → P w.outbox w.posts
      → P (run s es w).outbox (run s es w).posts
  unfolding run
  run-P s [] w i = i
  run-P s (e ∷ es) w i = run-P s es (step s e w) (step-P s e w i)

-- On any outbox, over any searches, sends, answers, restarts and deaths of the process, in any
-- order: each search is sent to each recipient at most once in a session.
pub emailed_once :
    (k : Key) (s : Settings) (es : List Event) (outbox : List OutboxRow)
    → count k (run s es (new_world outbox)).posts ≤ 1
unfolding count
emailed_once k s es outbox =
    (run-P (IsSingle k) (insert-IsSingle k) (λ row rows posts i. (λ f. i.0 (ground arith), i.1))
      (λ operation status rows posts i.
        (λ f. i.0 (sym (has-set_status k operation status rows) ∙ f), i.1))
      s es (new_world outbox) (λ f. refl, omega arith)).1

-- A search with a row in the outbox is not sent again, whatever became of its request.
pub recorded_not_sent :
    (k : Key) (s : Settings) (es : List Event) (w : World)
    → has k w.outbox ≡ true
    → count k (run s es w).posts ≡ count k w.posts
recorded_not_sent k s es w h =
    (run-P (IsKept k (count k w.posts)) (insert-IsKept k (count k w.posts))
      (λ row rows posts i. (ground arith, i.1))
      (λ operation status rows posts i. (has-set_status k operation status rows ∙ i.0, i.1)) s es w
      (h, refl)).1
