-- ===== src/Engagement/Frame.antt =====
-- What a step of the policy (latency_lab/engagement.py) leaves as it is or within its bounds: the relation
-- and how it composes.
use sales_girl_voice_agent.Common.{
  ℕ, ◌≡◌, refl, Bool, true, false, List, arith, ◌-◌, ◌≤◌, length-drop, length, ◌∙◌, if◌then◌else◌,
}
use sales_girl_voice_agent.Engagement.State.{Pipe, keep_last, Engagement}

-- From `e` to `e'`: the revision does not go back, the gate stays, and the lists stay bounded.
pub record Frame (e e' : Engagement) : Type 0 where
  pub enabled : e'.enabled ≡ e.enabled
  pub revision : e.revision ≤ e'.revision
  pub quiet : e'.quiet ≡ e.quiet
  pub messages : length e.new_messages ≤ 8 → length e'.new_messages ≤ 8
  pub updates : length e.last_updates ≤ 3 → length e'.last_updates ≤ 3

abbrev pub same : (e : Engagement) → Frame e e
same e = record {
  enabled = refl;
  revision = omega arith;
  quiet = refl;
  messages = λ h. h;
  updates = λ h. h;
}

-- A step that changes none of these fields but perhaps raises the revision.
abbrev pub plain :
    (e e' : Engagement)
    → e'.enabled ≡ e.enabled
    → e.revision ≤ e'.revision
    → e'.quiet ≡ e.quiet
    → e'.new_messages ≡ e.new_messages
    → e'.last_updates ≡ e.last_updates
    → Frame e e'
plain e e' a r q m u = record {
  enabled = a;
  revision = r;
  quiet = q;
  messages = λ h. rw m h;
  updates = λ h. rw u h;
}

abbrev pub then_frame : (e e' e'' : Engagement) → Frame e e' → Frame e' e'' → Frame e e''
then_frame e e' e'' f g = record {
  enabled = g.enabled ∙ f.enabled;
  revision = omega (arith, f.revision, g.revision);
  quiet = g.quiet ∙ f.quiet;
  messages = λ h. g.messages (f.messages h);
  updates = λ h. g.updates (f.updates h);
}

pub if-Frame :
    (b : Bool) (e e1 e2 : Engagement) → Frame e e1 → Frame e e2 → Frame e (if b then e1 else e2)
if-Frame true e e1 e2 f g = f
if-Frame false e e1 e2 f g = g

-- The same for a state that stands in a result.
pub if-second :
    {B : Type 0} (b : Bool) (e : Engagement) (x y : B × Engagement)
    → Frame e x.1
    → Frame e y.1
    → Frame e (if b then x else y).1
if-second true e x y f g = f
if-second false e x y f g = g

pub if-middle :
    {B : Type 0} (b : Bool) (e : Engagement) (x y : B × Engagement × Pipe)
    → Frame e x.1
    → Frame e y.1
    → Frame e (if b then x else y).1
if-middle true e x y f g = f
if-middle false e x y f g = g

pub length-keep_last {ℓ} : {A : Type ℓ} (n : ℕ) (xs : List A) → length (keep_last n xs) ≤ n
length-keep_last n xs = omega (arith, length-drop (length xs - n) xs)
