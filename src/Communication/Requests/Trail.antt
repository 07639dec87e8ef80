-- ===== src/Communication/Requests/Trail.antt =====
-- Whatever the requests, the published changes of each session lead to its stored state.
use nova_project_bible.Communication.Delivery.{deliver_content}
use nova_project_bible.Common.{Uuid, ◌≡◌, none, some, List, [], ◌∷◌}
use nova_project_bible.Communication.StateMachine.{idle, close, pause, resume}
use nova_project_bible.Communication.Store.{ConversationSession, Db, empty, find_session}
use nova_project_bible.Communication.Store.Trail.{trail, Chain, Inv, Inv-empty, Loaded, Ensures}
use nova_project_bible.Communication.Lifecycle.{
  open_session, record_inbound_turn, close_session, pause_session, resume_session,
}
use nova_project_bible.Communication.Lifecycle.Trail.{
  Any, ignore-Ensures, apply_transition-Ensures, record_inbound_turn-Ensures, close_session-Ensures,
  open_session-Ensures,
}
use nova_project_bible.Communication.Sessions.Trail.{
  or_404-Ensures, if_session-Ensures, disconnect_session-Ensures, hear_audio-Ensures,
}
use nova_project_bible.Communication.Delivery.Trail.{deliver_content-Ensures}
use nova_project_bible.Communication.Requests.{
  Request, create, message, pause, resume, close, audio_chunk, deliver, disconnect, handle, serve,
}

handle-Ensures : (r : Request) (db : Db) → Inv db → Ensures Any (handle r db)
unfolding handle pause_session resume_session
handle-Ensures (create i u c d o now) db inv =
    ignore-Ensures Any (open_session i u c d o now) db (open_session-Ensures i u c d o now db inv)
handle-Ensures (message i content turn now) db inv = or_404-Ensures i db _ inv λ s db1 inv1 l1.
    ignore-Ensures Any (record_inbound_turn s content turn now) db1
      (record_inbound_turn-Ensures s now db1 inv1 l1 content turn)
handle-Ensures (pause i now) db inv = or_404-Ensures i db _ inv λ s db1 inv1 l1.
    ignore-Ensures Loaded _ db1 (apply_transition-Ensures s pause none now db1 inv1 l1)
handle-Ensures (resume i now) db inv = or_404-Ensures i db _ inv λ s db1 inv1 l1.
    ignore-Ensures Loaded _ db1 (apply_transition-Ensures s resume none now db1 inv1 l1)
handle-Ensures (close i now) db inv = or_404-Ensures i db _ inv λ s db1 inv1 l1.
    ignore-Ensures Any (close_session s now) db1 (close_session-Ensures s now db1 inv1 l1)
handle-Ensures (audio_chunk i now) db inv =
    if_session-Ensures i db inv _ (λ s l. hear_audio-Ensures s now db inv l)
handle-Ensures (deliver i content annotations w) db inv = if_session-Ensures i db inv _ λ s l.
    ignore-Ensures Any (deliver_content w content annotations s) db
      (deliver_content-Ensures w content annotations s db inv l)
handle-Ensures (disconnect i now) db inv =
    if_session-Ensures i db inv _ (λ s l. disconnect_session-Ensures s now db inv l)

serve-Inv : (requests : List Request) (db : Db) → Inv db → Inv (serve requests db)
unfolding serve
serve-Inv [] db inv = inv
serve-Inv (r ∷ requests) db inv = serve-Inv requests (handle r db).1 (handle-Ensures r db inv).inv

-- After any requests, failing or not, the published changes of each stored session lead from the
-- idle state to the stored one, each by an edge of the table or the pause of a session that was not
-- completed.
pub serve-trail :
    (requests : List Request) (i : Uuid) (s : ConversationSession)
    → find_session i (serve requests empty).sessions ≡ some s
    → Chain idle (trail i (serve requests empty).outbox) s.state
serve-trail requests i s found = (serve-Inv requests empty Inv-empty).traced i s found
