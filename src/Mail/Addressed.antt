-- ===== src/Mail/Addressed.antt =====
-- To whom the e-mails of a session go, and with what, over any events.
use sales_girl_voice_agent.Common.{
  Picked, pick-Picked, ℕ, Bool, true, false, Option, none, some, List, [], ◌∷◌, All,
}
use sales_girl_voice_agent.Mail.Prepare.{DirectoryEmail, remember, prepare, verified_contact}
use sales_girl_voice_agent.Mail.Send.{
  Settings, Sending, OutboxRow, Fresh, Recorded, Begun, answers, looks_up, Checked, replies,
  records, Answer, begin_prepared, send_begin, send_check, send_record,
}
use sales_girl_voice_agent.Mail.World.{
  World, Event, searched, prepares, sends, refreshed, recorded, answered, restarts, step, run,
  new_world, on_sends, on_refreshed, on_checked, on_inserted, on_recorded, on_answered,
}
use sales_girl_voice_agent.Mail.Destined.{OptionDestined, prepare-IsDestined}
use sales_girl_voice_agent.Mail.Right.{
  IsAuthorized, IsSendable, BegunOk, CheckedOk, allowed_contact, begin_prepared-Ok, send_check-Ok,
}
use sales_girl_voice_agent.Common.{pick}

module _ (s : Settings) where
  record Inv (w : World) : Type 0 where
    destined : OptionDestined w.mail.prepared
    looking : All (IsAuthorized s) w.looking
    checked : All (IsSendable s) w.checked
    posts : All (IsSendable s) w.posts

  sends-Inv :
      (m : DirectoryEmail) (b : Begun) (w : World)
      → OptionDestined m.prepared
      → BegunOk s b
      → Inv w
      → Inv (on_sends (m, b) w)
  unfolding on_sends
  sends-Inv m (answers _) w d o i = record {
    destined = d;
    looking = i.looking;
    checked = i.checked;
    posts = i.posts;
  }
  sends-Inv m (looks_up l) w d o i = record {
    destined = d;
    looking = (o, i.looking);
    checked = i.checked;
    posts = i.posts;
  }

  checked-Inv :
      (c : Checked) (others : List Sending) (w : World)
      → CheckedOk s c
      → All (IsAuthorized s) others
      → Inv w
      → Inv (on_checked c others w)
  checked-Inv (replies _) others w o a i = record {
    destined = i.destined;
    looking = a;
    checked = i.checked;
    posts = i.posts;
  }
  checked-Inv (records r) others w o a i = record {
    destined = i.destined;
    looking = a;
    checked = (o, i.checked);
    posts = i.posts;
  }

  refreshed-Inv :
      (o : Option (Sending × List Sending)) (fresh : Fresh) (operation : ℕ) (w : World)
      → Picked (IsAuthorized s) o
      → Inv w
      → Inv (on_refreshed s o fresh operation w)
  unfolding on_refreshed
  refreshed-Inv none fresh operation w p i = i
  refreshed-Inv (some (l, others)) fresh operation w p i =
      checked-Inv (send_check s operation l fresh w.outbox) others w
        (send_check-Ok s operation l fresh w.outbox p.0) p.1 i

  inserted-Inv :
      (o : Option (List OutboxRow)) (r : Recorded) (others : List Recorded) (posted : Bool)
      (w : World)
      → IsSendable s r
      → All (IsSendable s) others
      → Inv w
      → Inv (on_inserted o r others posted w)
  inserted-Inv none r others posted w h a i = record {
    destined = i.destined;
    looking = i.looking;
    checked = a;
    posts = i.posts;
  }
  inserted-Inv (some rows) r others true w h a i = record {
    destined = i.destined;
    looking = i.looking;
    checked = a;
    posts = (h, i.posts);
  }
  inserted-Inv (some rows) r others false w h a i = record {
    destined = i.destined;
    looking = i.looking;
    checked = a;
    posts = i.posts;
  }

  recorded-Inv :
      (o : Option (Recorded × List Recorded)) (posted : Bool) (w : World)
      → Picked (IsSendable s) o
      → Inv w
      → Inv (on_recorded o posted w)
  unfolding on_recorded
  recorded-Inv none posted w p i = i
  recorded-Inv (some (r, others)) posted w p i =
      inserted-Inv (send_record r.row w.outbox) r others posted w p.0 p.1 i

  answered-Inv :
      (o : Option (ℕ × List ℕ)) (a : Answer) (w : World) → Inv w → Inv (on_answered o a w)
  unfolding on_answered
  answered-Inv none a w i = i
  answered-Inv (some (operation, others)) a w i = record {
    destined = i.destined;
    looking = i.looking;
    checked = i.checked;
    posts = i.posts;
  }

  with_mail :
      (m : DirectoryEmail) (w : World)
      → OptionDestined m.prepared
      → Inv w
      → Inv (record w { mail = m })
  with_mail m w d i = record {
    destined = d;
    looking = i.looking;
    checked = i.checked;
    posts = i.posts;
  }

  step-Inv : (e : Event) (w : World) → Inv w → Inv (step s e w)
  unfolding step send_begin remember
  step-Inv (searched body) w i = with_mail _ w i.destined i
  step-Inv (prepares arguments db) w i =
      let found = verified_contact s.directory s.context s.identity s.path db in
      with_mail (prepare arguments found w.mail).0 w (prepare-IsDestined arguments found w.mail) i
  step-Inv (sends confirmed db key sender) w i =
      let found = verified_contact s.directory s.context s.identity s.path db in
      sends-Inv (record w.mail { prepared = none })
        (begin_prepared w.mail.prepared confirmed found key sender) w tt
        (begin_prepared-Ok s w.mail.prepared confirmed found key sender i.destined
          (allowed_contact s db))
        i
  step-Inv (refreshed n fresh operation) w i =
      refreshed-Inv (pick n w.looking) fresh operation w
        (pick-Picked (IsAuthorized s) n w.looking i.looking) i
  step-Inv (recorded n posted) w i =
      recorded-Inv (pick n w.checked) posted w (pick-Picked (IsSendable s) n w.checked i.checked) i
  step-Inv (answered n a) w i = answered-Inv (pick n w.asked) a w i
  step-Inv restarts w i = with_mail _ w tt i

  run-Inv : (es : List Event) (w : World) → Inv w → Inv (run s es w)
  unfolding run
  run-Inv [] w i = i
  run-Inv (e ∷ es) w i = run-Inv es (step s e w) (step-Inv e w i)

-- Over any searches, sends, answers, restarts and deaths of the process, in any order: each e-mail
-- is of a verified SIP caller of the business and its agent, carries one to seven providers, and
-- goes to the saved address, which was read again, or to a well-formed other one that the caller
-- has confirmed.
pub run-IsSendable :
    (s : Settings) (es : List Event) (outbox : List OutboxRow)
    → All (IsSendable s) (run s es (new_world outbox)).posts
run-IsSendable s es outbox =
    (run-Inv s es (new_world outbox)
      (record { destined = tt; looking = tt; checked = tt; posts = tt })).posts
