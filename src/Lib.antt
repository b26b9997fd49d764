-- ===== src/Lib.antt =====
-- A verification library of the voice agent: the parts of the worker that decide what a call remembers,
-- what it may do with the caller's money, where it is routed and what is reported of it.
--
-- Which file models which part (paths from the repository's root):
--   * Memory (latency_lab/memory.py): `ConversationMemory`. Turns has the state and user, tool, answer,
--     finish and clear; Groups has `_groups` and `_messages`; Budget the estimate of tokens on the JSON
--     text; Context has `context`; Compact has `compact`, cut at its wait for the model into
--     begin_compact and finish_compact, between which any other operation may run.
--   * Passkey (latency_lab/passkey.py): Options has `supported_options`, Consent has `start_requested`
--     and `enabled`, Flow has `PasskeyFlow` with each method cut at its waits, World has the tasks that
--     wait and every order in which the app, the caller and the connector may act.
--   * Banking (latency_lab/banking_tools.py): Records has `bank_records` and `bank_tool_definitions`,
--     Arguments has `arguments`, Voice the checks of the caller's voice, Execute has `_execute` cut at
--     its waits, Tasks the calls that wait; Confirmed, Backed and Spent are about what is sent. The banking
--     tools stand beside the passkey: the confirmation of Execute is that of a spoken turn, the one of
--     Passkey that of the phone.
--   * Sip (latency_lab/sip_routing.py): Phone has `normalize_phone`, Routes the configured map and the
--     choice of an agent; Bootstrap has the numbers, the maps and the dispatch of
--     latency_lab/sip_bootstrap.py, Party its `participant_identity`, of
--     which Called says what decides the called number. Services.Bridge uses Phone, as the code does.
--   * Speech (latency_lab/llm_output.py): Tags has the pattern of the internal tags, Filter has
--     `SpokenTextFilter`; Spoken and Hidden are about what is spoken.
--   * Identity (latency_lab/session_identity.py): `verify_session_token` and its nonces.
--   * Usage (latency_lab/usage.py): `UsageCollector` and `UsageReporter`.
--   * Noise (latency_lab/input_noise.py): Filter has `InputNoiseFilter` and
--     `ListeningNoiseRoute`; Stream, Whole and FailOpen are about the audio that comes out.
--   * Resume (agent/conversation_memory.py): the table of messages as a list of rows.
--   * Services: Billing (agent/billing_hooks.py), Capacity (agent/call_capacity_api.py) and Bridge
--     (latency_lab/aicc_transfer.py).
--   * Engagement (latency_lab/engagement.py): State has the state and what the caller and the playback
--     do to it; Tools the operations of `run_tool` and of the background tools, kept in a store because
--     the pipeline and the policy share them; Opportunity has `opportunity`, `safe`,
--     `_can_close_idle` and the round of `_loop`; Reconsider has `reconsider`, Hangup the idle close
--     and `_play_engagement` of latency_lab/pipeline.py; Events has every step in any order. Book is
--     the abstract view of the requests, Refines says that the policy keeps it; Frame, Handlers and
--     Bounded say what every event keeps; Single, Pinned, Gate and Phrase are about all orders of events.
--   * Pipeline (latency_lab/pipeline.py): the turns. State has the turn state and the store of attempts;
--     Attempts the life of an attempt; Transcript the partial texts, the final and the reply; Voice the
--     voice activity and the timeouts; Client the client's reports, the speech control, `announce` and
--     all events. A line of `announce` is kept as the turn that it is for, apart from the attempts that
--     `_start_attempt` makes, since no other code reaches it.
--     Base, Quiet, Turns, Replies, Listening, Hearing and Steps carry what holds between the events,
--     Authority what follows. Hush with its children and Silenced follow an attempt that is cancelled,
--     Cancelled is about its audio. Phrases has `PhraseTokenizer`, which Whole and Ends are about.
--   * Mail (latency_lab/directory_email.py): the e-mails with search results. Contacts has the numbers,
--     the addresses and `save_contact`, Prepare `remember`, `_verified_contact` and `prepare`, Send
--     `send` cut at its waits and at its transactions on the outbox, and World all orders of them, with
--     restarts and processes that die. Destined and Right are about one call, Once, Addressed and Saved
--     about any.
--   * Common: texts, JSON values, dicts and lists that these share.
--
-- How the code is rendered. A text is the list of its code points; letters, digits and white space are
-- those of ASCII. A dict is its list of keys and values in order. Ids that are only compared (turns,
-- operations, correlations) are numbers, and a fresh uuid is a counter. Times are numbers in one unit.
-- An object that a method changes is a record that the function returns changed; an exception is a value
-- of the result. An `async` method that other calls may interleave with is one function for each stretch
-- between two waits, and the waiting tasks are part of the state. Loops run over a list or a number that
-- shrinks; the loops of the speech filter and of the phrase tokenizer run on fuel, for which the buffer's
-- length is enough. In Pipeline a handler runs to its end before the next event, and its effects are a
-- log; its timers and the tasks that it leaves are events. What is
-- outside the repository is a parameter: the JSON schema validator, the noise suppressors, the keyed
-- digest, the hash of a search, and every reply of a service, the app or the model.
--
-- Not modelled: the trace recorder and the log, which are only written; timers, for which a step that
-- may come at any time stands; the media, model and telephony transport; the prompt texts; of
-- latency_lab/pipeline.py the generation of a reply, the tool rounds and the greeting; of
-- latency_lab/directory_email.py the layout of the e-mail and the spoken form of an address.
pub mod Common
pub mod Memory
pub mod Passkey
pub mod Banking
pub mod Sip
pub mod Identity
pub mod Usage
pub mod Noise
pub mod Resume
pub mod Services
pub mod Speech
pub mod Engagement
pub mod Pipeline
pub mod Mail
