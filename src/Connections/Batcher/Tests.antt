-- ===== src/Connections/Batcher/Tests.antt =====
-- A batcher of three requests with a processor that answers two of them.
use project_stark.Prelude.{ℕ, ◌≡◌, refl, true, false, none, some, List, [], ◌∷◌, ◌++◌, arith}
use project_stark.Prelude.Text.{String}
use project_stark.Connections.Batcher.{
  BatchItem, BatchConfig, pending, returned, RequestBatcher, World, Event, submits, flush_begins,
  flush_ends, init, enqueue, submit, set_future, settle, begin_flush, resolve, end_flush, batch_at,
  without, step, run,
}
use project_stark.Connections.Batcher.Futures.{Later, run-init-Later}
use project_stark.Connections.Batcher.Queue.{all_accepted, all_begun, run-init-InOrder}
use project_stark.Connections.Batcher.Answers.{has_id, in_any, IsUnanswered, short_results_hang}
use project_stark.Connections.Batcher.Translation.{Request, Translated, failed}

abbrev config : BatchConfig
config = record {
  batch_size = 2;
  batch_timeout_ms = 50;
  max_queue_size = 3;
  enable_priority = true;
}

abbrev three : List (Event ℕ ℕ)
three = submits 1 10 false ∷ submits 2 20 true ∷ submits 3 30 false ∷ flush_begins ∷ []

abbrev start : World ℕ ℕ
start = record { batcher = init config; in_flight = [] }

abbrev answers : List (Event ℕ ℕ)
answers = flush_ends 0 (some (11 ∷ 21 ∷ [])) ∷ []

abbrev waiting : ℕ → ℕ → BatchItem ℕ
waiting id payload = record { id = id; payload = payload; timestamp = 0 }

abbrev batch : List (BatchItem ℕ)
batch = waiting 0 10 ∷ waiting 1 20 ∷ waiting 2 30 ∷ []

abbrev busy : World ℕ ℕ
busy = record {
  batcher = record {
    config = config;
    queue = [];
    running = true;
    locked = false;
    next_id = 3;
    futures = λ n. pending;
  };
  in_flight = batch ∷ [];
}

second_answer : (run answers (run three start)).batcher.futures 1 ≡ returned 21
unfolding run step init submit enqueue begin_flush end_flush resolve settle set_future batch_at
second_answer = refl

run-init-Later_example :
    Later ((run three start).batcher.futures 1) ((run answers (run three start)).batcher.futures 1)
run-init-Later_example = run-init-Later config three answers 1

run-init-InOrder_example :
    all_accepted three start ≡ all_begun three start ++ (run three start).batcher.queue
run-init-InOrder_example = run-init-InOrder config three

short_results_hang_example :
    IsUnanswered 2 (run (flush_begins ∷ []) (step (flush_ends 0 (some (11 ∷ 21 ∷ []))) busy))
unfolding has_id in_any without batch_at
short_results_hang_example =
    short_results_hang (flush_begins ∷ []) 0 (11 ∷ 21 ∷ []) 2 busy (omega arith) refl refl refl refl

abbrev request : String → Request ℕ
request text = record { text = text; source_lang = "auto"; target_lang = "en"; options = none }

abbrev translate_fn : Request ℕ → Translated ℕ
translate_fn r = failed "offline"

abbrev item : BatchItem (Request ℕ)
item = record { id = 0; payload = request "hola"; timestamp = 0 }

abbrev translating : RequestBatcher (Request ℕ) (String × ℕ)
translating = record {
  config = config;
  queue = [];
  running = true;
  locked = false;
  next_id = 1;
  futures = λ n. pending;
}
