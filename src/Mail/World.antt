-- ===== src/Mail/World.antt =====
-- The e-mails of a session over any events (latency_lab/directory_email.py). A process may die
-- before it sends the request that it recorded, and a restarted one begins with a new
-- DirectoryEmail while the old sends go on.
use sales_girl_voice_agent.Common.{ℕ, Bool, true, false, Option, none, some, List, [], ◌∷◌, Text}
use sales_girl_voice_agent.Mail.Contacts.{Contact}
use sales_girl_voice_agent.Mail.Prepare.{
  DirectoryEmail, SearchBody, Arguments, remember, prepare, verified_contact,
}
use sales_girl_voice_agent.Mail.Send.{
  Settings, Sending, Begun, answers, looks_up, OutboxRow, Fresh, Recorded, Checked, replies,
  records, Answer, send_begin, send_check, send_record, send_done,
}
use sales_girl_voice_agent.Common.{pick}

-- `looking`, `checked` and `asked` hold the sends at their three waits, and `posts` the requests.
pub record World : Type 0 where
  pub mail : DirectoryEmail
  pub looking : List Sending
  pub checked : List Recorded
  pub asked : List ℕ
  pub outbox : List OutboxRow
  pub posts : List Recorded

pub data Event : Type 0 where
  searched : SearchBody → Event
  prepares : Arguments → Option (List Contact) → Event
  sends : Bool → Option (List Contact) → Text → Text → Event
  refreshed : ℕ → Fresh → ℕ → Event
  recorded : ℕ → Bool → Event
  answered : ℕ → Answer → Event
  restarts : Event

abbrev pub new_mail : DirectoryEmail
new_mail = record { filters = none; prepared = none }

unfoldable pub on_sends : DirectoryEmail × Begun → World → World
on_sends (m, answers _) w = record w { mail = m }
on_sends (m, looks_up l) w = record w { mail = m; looking = l ∷ w.looking }

abbrev pub on_checked : Checked → List Sending → World → World
on_checked (replies _) others w = record w { looking = others }
on_checked (records r) others w = record w { looking = others; checked = r ∷ w.checked }

unfoldable pub on_refreshed : Settings → Option (Sending × List Sending) → Fresh → ℕ → World → World
unfolding send_check
on_refreshed s none fresh operation w = w
on_refreshed s (some (l, others)) fresh operation w =
    on_checked (send_check s operation l fresh w.outbox) others w

-- `posted` says that the process lives to send the request.
abbrev pub on_inserted : Option (List OutboxRow) → Recorded → List Recorded → Bool → World → World
on_inserted none r others posted w = record w { checked = others }
on_inserted (some rows) r others true w = record w {
  checked = others;
  outbox = rows;
  asked = r.row.id ∷ w.asked;
  posts = r ∷ w.posts;
}
on_inserted (some rows) r others false w = record w { checked = others; outbox = rows }

unfoldable pub on_recorded : Option (Recorded × List Recorded) → Bool → World → World
unfolding send_record
on_recorded none posted w = w
on_recorded (some (r, others)) posted w = on_inserted (send_record r.row w.outbox) r others posted w

unfoldable pub on_answered : Option (ℕ × List ℕ) → Answer → World → World
unfolding send_done
on_answered none a w = w
on_answered (some (operation, others)) a w = record w {
  asked = others;
  outbox = (send_done operation a w.outbox).0;
}

unfoldable pub step : Settings → Event → World → World
unfolding on_sends on_refreshed on_recorded on_answered verified_contact remember prepare send_begin
step s (searched body) w = record w { mail = remember body w.mail }
step s (prepares arguments db) w =
    let found = verified_contact s.directory s.context s.identity s.path db in
    record w { mail = (prepare arguments found w.mail).0 }
step s (sends confirmed db key sender) w =
    let found = verified_contact s.directory s.context s.identity s.path db in
    on_sends (send_begin confirmed found key sender w.mail) w
step s (refreshed n fresh operation) w = on_refreshed s (pick n w.looking) fresh operation w
step s (recorded n posted) w = on_recorded (pick n w.checked) posted w
step s (answered n a) w = on_answered (pick n w.asked) a w
step s restarts w = record w { mail = new_mail }

unfoldable pub run : Settings → List Event → World → World
unfolding step
run s [] w = w
run s (e ∷ es) w = run s es (step s e w)

-- No send yet, on an outbox that earlier calls may have filled.
abbrev pub new_world : List OutboxRow → World
new_world outbox = record {
  mail = new_mail;
  looking = [];
  checked = [];
  asked = [];
  outbox = outbox;
  posts = [];
}
