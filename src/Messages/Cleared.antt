-- ===== src/Messages/Cleared.antt =====
-- What a receipt does to the messages that wait for the runs.
use taskboard.Access.Principals.{Principal}
use taskboard.Board.Queries.{insert_event}
use taskboard.Board.Settings.{Call}
use taskboard.Common.{
  >>=-eq-ok, Bool, Bool-cases, List, Option, String, [], ap, arith, eq_iff, false, find,
  find-append_absent, find-append_some, find-holds, find-update, inl, inr, is_none, nat_eq, none,
  not, ok, ok_injective, refl, some, string_eq, subst, sym, true, ◌==◌, ◌∷◌, ◌≡◌, ◌⊎◌,
}
use taskboard.Messages.{
  check_receivable, first_time, is_pending, is_received, marked, named_ids, new_receipt,
  put_receipt, receipt_of, record_all, record_message_receipt, write_receipts,
}
use taskboard.Model.{
  Board, Message, MessageReceipt, MessageReceiptRequest, control_kind_eq, control_status_eq,
  escalation_eq, item_eq, message_eq, status_eq, visibility_eq,
}
use taskboard.Stamp.{Time}
use taskboard.Text.{contains, unique}

-- The receipts for a run that answer a message.
abbrev received : Bool → List MessageReceipt → String → String → Bool
received requires_ack receipts id run_id =
    is_received requires_ack (find (receipt_of id run_id) receipts)

put_receipt-found :
    (receipts : List MessageReceipt) (now : Time) (id run_id observer : String) (ack : Bool)
    → (r : MessageReceipt) × (find (receipt_of id run_id) (
          put_receipt receipts
            (new_receipt now id run_id observer ack)
            (find (receipt_of id run_id) receipts))
        ≡ some r)
put_receipt-found receipts now id run_id observer ack =
    go (find (receipt_of id run_id) receipts) refl
  where
    go :
        (o : Option MessageReceipt)
        → find (receipt_of id run_id) receipts ≡ o
        → (r : MessageReceipt) × (find
              (receipt_of id run_id)
              (put_receipt receipts (new_receipt now id run_id observer ack) o)
            ≡ some r)
    go none e = (
      new_receipt now id run_id observer ack,
      find-append_absent (receipt_of id run_id) receipts (new_receipt now id run_id observer ack) e
          (rw ((eq_iff id id).1 refl, (eq_iff run_id run_id).1 refl) refl),
    )
    go (some r) e = (r, e)

put_receipt-keeps :
    (receipts : List MessageReceipt) (row r : MessageReceipt) (o : Option MessageReceipt)
    (id run_id : String)
    → find (receipt_of id run_id) receipts ≡ some r
    → find (receipt_of id run_id) (put_receipt receipts row o) ≡ some r
put_receipt-keeps receipts row r none id run_id e =
    find-append_some (receipt_of id run_id) receipts (row ∷ []) r e
put_receipt-keeps receipts row r (some kept) id run_id e = e

first_time-some : (o : Option Time) (now : Time) → is_none (first_time o now) ≡ false
first_time-some none now = refl
first_time-some (some t) now = refl

marked-IsReceived :
    (now : Time) (observer : String) (requires_ack ack : Bool) (r : MessageReceipt)
    → (requires_ack ≡ false) ⊎ (ack ≡ true)
    → is_received requires_ack (some (marked now observer ack r)) ≡ true
marked-IsReceived now observer false ack r h = refl
marked-IsReceived now observer true true r h = ap not (first_time-some r.acknowledged_at now)
marked-IsReceived now observer true false r (inl e) = cc
marked-IsReceived now observer true false r (inr e) = cc

marked-keeps :
    (now : Time) (observer : String) (requires_ack ack : Bool) (r : MessageReceipt)
    → is_received requires_ack (some r) ≡ true
    → is_received requires_ack (some (marked now observer ack r)) ≡ true
marked-keeps now observer false ack r h = refl
marked-keeps now observer true true r h = ap not (first_time-some r.acknowledged_at now)
marked-keeps now observer true false r h = h

-- A recorded receipt answers its message, unless an acknowledgement is asked for and not given.
record_message_receipt-IsReceived :
    (now : Time) (id run_id observer : String) (requires_ack ack : Bool)
    (receipts : List MessageReceipt)
    → (requires_ack ≡ false) ⊎ (ack ≡ true)
    → received requires_ack (record_message_receipt now id run_id observer ack receipts) id run_id
      ≡ true
unfolding record_message_receipt
record_message_receipt-IsReceived now id run_id observer requires_ack ack receipts h =
    let (r, e) = put_receipt-found receipts now id run_id observer ack in
    let here = receipt_of id run_id in
    let rows = put_receipt receipts (new_receipt now id run_id observer ack) (find here receipts) in
    let k : here r ≡ true = find-holds here rows r e in
    rw (find-update here here (marked now observer ack) rows r (λ y m. refl) e, k)
      (marked-IsReceived now observer requires_ack ack r h)

-- A message stays answered when another receipt is recorded.
record_message_receipt-keeps :
    (now : Time) (id run_id observer : String) (ack requires_ack : Bool)
    (receipts : List MessageReceipt) (other other_run : String)
    → received requires_ack receipts other other_run ≡ true
    → received requires_ack
        (record_message_receipt now id run_id observer ack receipts)
        other
        other_run
      ≡ true
unfolding record_message_receipt
record_message_receipt-keeps now id run_id observer ack requires_ack receipts other other_run h =
    go (find (receipt_of other other_run) receipts) refl h
  where
    go :
        (o : Option MessageReceipt)
        → find (receipt_of other other_run) receipts ≡ o
        → is_received requires_ack o ≡ true
        → received requires_ack
            (record_message_receipt now id run_id observer ack receipts)
            other
            other_run
          ≡ true
    go none e k = cc
    go (some r) e k =
        let row = new_receipt now id run_id observer ack in
        let rows = put_receipt receipts row (find (receipt_of id run_id) receipts) in
        let kept =
          put_receipt-keeps receipts row r (find (receipt_of id run_id) receipts) other other_run
            e in
        let last =
          find-update (receipt_of id run_id) (receipt_of other other_run) (marked now observer ack)
            rows r (λ y m. refl) kept in
        rw last (elim (Bool-cases (receipt_of id run_id r)) [
          | inl same ↦ rw same (marked-keeps now observer requires_ack ack r k)
          | inr differs ↦ rw differs k
        ])

record_all-keeps :
    (now : Time) (messages : List Message) (task_id run_id observer : String)
    (acknowledged ids : List String) (receipts receipts' : List MessageReceipt)
    (requires_ack : Bool) (other other_run : String)
    → record_all now messages task_id run_id observer acknowledged ids receipts ≡ ok receipts'
    → received requires_ack receipts other other_run ≡ true
    → received requires_ack receipts' other other_run ≡ true
unfolding record_all
record_all-keeps now messages task_id run_id observer acknowledged [] receipts receipts'
      requires_ack other other_run h k =
    subst (λ rs. received requires_ack rs other other_run ≡ true) (ok_injective h) k
record_all-keeps now messages task_id run_id observer acknowledged (id ∷ ids) receipts receipts'
      requires_ack other other_run h k =
    let (u, _, rest) =
      >>=-eq-ok
        (check_receivable task_id run_id observer (find (λ (m : Message). m.id == id) messages)) _
        h in
    record_all-keeps now messages task_id run_id observer acknowledged ids _ receipts' requires_ack
      other other_run rest
      (record_message_receipt-keeps now id run_id observer (contains id acknowledged) requires_ack
        receipts other other_run k)

record_all-IsReceived :
    (now : Time) (messages : List Message) (task_id run_id observer : String)
    (acknowledged ids : List String) (receipts receipts' : List MessageReceipt)
    (requires_ack : Bool) (id : String)
    → record_all now messages task_id run_id observer acknowledged ids receipts ≡ ok receipts'
    → contains id ids ≡ true
    → (requires_ack ≡ false) ⊎ (contains id acknowledged ≡ true)
    → received requires_ack receipts' id run_id ≡ true
unfolding record_all contains
record_all-IsReceived now messages task_id run_id observer acknowledged [] receipts receipts'
      requires_ack id h k answer =
    cc
record_all-IsReceived now messages task_id run_id observer acknowledged (x ∷ ids) receipts receipts'
      requires_ack id h k answer =
    let (u, _, rest) =
      >>=-eq-ok
        (check_receivable task_id run_id observer (find (λ (m : Message). m.id == x) messages)) _
        h in
    elim (Bool-cases (x == id)) [
      | inl same ↦
          let e : x ≡ id = (eq_iff x id).0 same in
          record_all-keeps now messages task_id run_id observer acknowledged ids _ receipts'
            requires_ack id run_id rest
            (subst
              (λ (z : String).
                received requires_ack
                  (record_message_receipt now x run_id observer (contains x acknowledged) receipts)
                  z run_id
                ≡ true)
              e
              (record_message_receipt-IsReceived now x run_id observer requires_ack
                (contains x acknowledged) receipts
                (subst (λ (z : String). (requires_ack ≡ false) ⊎ (contains z acknowledged ≡ true))
                  (sym e) answer)))
      | inr differs ↦
          record_all-IsReceived now messages task_id run_id observer acknowledged ids _ receipts'
            requires_ack id rest (ground arith) answer
    ]

-- What the receipts of a run leave pending.
pub record Cleared (b b' : Board) (task_id run_id observer : String)
    (request : MessageReceiptRequest) : Type 0 where
  pub messages : b'.messages ≡ b.messages
  pub named :
      (m : Message)
      → contains m.id (named_ids request) ≡ true
      → (m.requires_ack ≡ false) ⊎ (contains m.id (unique request.acknowledged_message_ids) ≡ true)
      → is_pending b'.receipts task_id run_id observer m ≡ false
  pub kept :
      (m : Message) (other_task other_run other_agent : String)
      → is_pending b.receipts other_task other_run other_agent m ≡ false
      → is_pending b'.receipts other_task other_run other_agent m ≡ false

pending-received :
    (receipts : List MessageReceipt) (task_id run_id observer : String) (m : Message)
    → received m.requires_ack receipts m.id run_id ≡ true
    → is_pending receipts task_id run_id observer m ≡ false
pending-received receipts task_id run_id observer m h = rw h (ground arith)

-- After the receipts of a run are recorded, a message that the request names is no longer pending
-- for the run, if it asks for no acknowledgement or is among the acknowledged ones. No message
-- becomes pending again, for any run of any task, and the messages stay as they are.
pub write_receipts-Cleared :
    (call : Call) (b b' : Board) (task_id run_id : String) (request : MessageReceiptRequest)
    (principal : Principal)
    → write_receipts call b task_id run_id request principal ≡ ok b'
    → Cleared b b' task_id run_id principal.id request
unfolding write_receipts insert_event
write_receipts-Cleared call b b' task_id run_id request principal h =
    let (rows, recorded, rest) =
      >>=-eq-ok
        (record_all call.now b.messages task_id run_id principal.id
          (unique request.acknowledged_message_ids) (named_ids request) b.receipts)
        _ h in
    let same : b'.receipts ≡ rows = sym (ap (λ (x : Board). x.receipts) (ok_injective rest)) in
    record {
      messages = sym (ap (λ (x : Board). x.messages) (ok_injective rest));
      named = λ m k answer.
          subst (λ rs. is_pending rs task_id run_id principal.id m ≡ false) (sym same)
            (pending-received rows task_id run_id principal.id m (
              record_all-IsReceived call.now b.messages task_id run_id principal.id
                (unique request.acknowledged_message_ids) (named_ids request) b.receipts rows
                m.requires_ack m.id recorded k answer));
      kept = λ m other_task other_run other_agent k.
          subst (λ rs. is_pending rs other_task other_run other_agent m ≡ false) (sym same)
            (elim (Bool-cases (received m.requires_ack b.receipts m.id other_run)) [
              | inl before ↦ pending-received rows other_task other_run other_agent m (
                  record_all-keeps call.now b.messages task_id run_id principal.id
                    (unique request.acknowledged_message_ids) (named_ids request) b.receipts rows
                    m.requires_ack m.id other_run recorded before)
              | inr open_before ↦ ground arith
            ]);
    }
