-- ===== src/Messages/Samples.antt =====
-- The theorem on receipts at work on a small board.
use taskboard.Access.Principals.{agent_principal}
use taskboard.Board.Queries.{insert_event}
use taskboard.Common.{[], conflict, err, ok, refl, true, ◌∷◌, ◌≡◌}
use taskboard.Fixtures.{bot, call, held_board}
use taskboard.Messages.{is_pending, record_all, record_message_receipt, write_receipts}
use taskboard.Messages.Cleared.{Cleared, write_receipts-Cleared}
use taskboard.Messages.Post.{insert_superseding}
use taskboard.Model.{Board, Message, MessageKind, MessageReceiptRequest}
use taskboard.Text.{contains, trim_space, unique}

abbrev instruction : Message
instruction = record {
  id = "m1";
  task_id = "t1";
  author = "ann";
  author_run_id = "";
  target_run_id = "r1";
  kind = MessageKind.instruction;
  body = "Stop";
  reply_to_id = "";
  supersedes_id = "";
  requires_ack = true;
  created_at = 0;
}

abbrev told_board : Board
told_board = record held_board { messages = instruction ∷ [] }

abbrev receipt_request : MessageReceiptRequest
receipt_request = record {
  observed_message_ids = [];
  acknowledged_message_ids = "m1" ∷ [];
  idempotency_key = "";
  idempotency_hash = "";
}

abbrev observed_request : MessageReceiptRequest
observed_request = record receipt_request {
  observed_message_ids = "m1" ∷ [];
  acknowledged_message_ids = [];
}

sample_receipt : (b : Board) × (write_receipts call told_board "t1" "r1" receipt_request bot ≡ ok b)
unfolding write_receipts record_all record_message_receipt unique contains trim_space insert_event
    agent_principal
sample_receipt = (_, refl)

write_receipts-Cleared_example :
    Cleared told_board sample_receipt.0 "t1" "r1" bot.id receipt_request
write_receipts-Cleared_example =
    write_receipts-Cleared call told_board sample_receipt.0 "t1" "r1" receipt_request bot
      sample_receipt.1

-- An instruction that is seen and not acknowledged stays pending.
seen_instruction :
    (b : Board) × (write_receipts call told_board "t1" "r1" observed_request bot ≡ ok b)
    × (is_pending b.receipts "t1" "r1" "bot" instruction ≡ true)
unfolding write_receipts record_all record_message_receipt unique contains trim_space insert_event
    agent_principal
seen_instruction = (_, refl, refl)

second_supersession :
    insert_superseding
      (record told_board { messages = record instruction { id = "m2"; supersedes_id = "m1" } ∷ [] })
      (record instruction { id = "m3"; supersedes_id = "m1" })
    ≡ err conflict
unfolding insert_superseding
second_supersession = refl
