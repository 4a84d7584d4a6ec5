-- ===== src/Jobs/Tests.antt =====
-- Runs of the jobs table and the worker, and their theorems at concrete inputs.
use cloud_mesh.Common.{◌≡◌, ◌≢◌, refl, eq_iff, String, none, some, [], ◌∷◌, arith}
use cloud_mesh.Common.KeyValue.{KeyValue, memory, blank}
use cloud_mesh.CircuitBreaker.{Outcome, returned, threw}
use cloud_mesh.Common.{ℕ, ◌+◌, ◌≤◌, List, length, ltb, ◌==◌, if◌then◌else◌}
use cloud_mesh.Billing.Pricing.{UnifiedUsage}
use cloud_mesh.Billing.Usage.{record_usage_and_outbox}
use cloud_mesh.Billing.Once.{IsConsistent}
use cloud_mesh.Jobs.Handlers.{JobSpend, HandlerContext, chat_all}
use cloud_mesh.Jobs.Billed.{attempts_at, ReturnsPaid, attempts_at-IsPaid}
use cloud_mesh.Jobs.{
  JobRow, known, inherited, other, high, whole, World, get_job, is_job_priority_name,
  to_priority_value,
}
use cloud_mesh.Jobs.Queue.{CreateJobInput, create_job, new_row}
use cloud_mesh.Jobs.Worker.{Registry, attempts_in_turn}
use cloud_mesh.Jobs.Tenancy.{completes, perform, perform_elsewhere}
use cloud_mesh.Jobs.Rows.{Fails, Succeeds, Failed, Completed}
use cloud_mesh.Jobs.Lifecycle.{attempts_in_turn-Failed}
use cloud_mesh.Jobs.Replay.{Queued, create_job-Completed}

abbrev db : KeyValue JobRow
db = memory JobRow

abbrev input : CreateJobInput
input = record {
  org_id = "acme";
  api_key_id = none;
  type = "echo";
  payload = "{}";
  priority = known high;
}

abbrev row : JobRow
row = new_row input 5

abbrev one_job : JobRow → World db
one_job r = record {
  jobs = (memory JobRow).put blank "j1" r;
  outbox = [];
  queue = [];
  published = [];
}

abbrev empty : World db
empty = record { jobs = blank; outbox = []; queue = []; published = [] }

abbrev failing : Registry
failing type = some (λ payload. record { reports = whole 40 ∷ []; outcome = threw "boom" })

abbrev working : Registry
working type = some (λ payload. record { reports = whole 40 ∷ []; outcome = returned "done" })

failing-Fails : Fails db "echo" failing
failing-Fails = (_, (λ payload. "boom"), refl, λ payload. refl)

working-Succeeds : Succeeds db "echo" "done" working
working-Succeeds = (_, refl, λ payload. refl)

-- The name of an inherited property passes the test and is no priority.
inherited_name_refused :
    (is_job_priority_name inherited ≡ is_job_priority_name (known high))
    × (to_priority_value inherited ≡ none)
    × (to_priority_value other ≡ some 10)
unfolding to_priority_value is_job_priority_name
inherited_name_refused = (refl, refl, refl)

acme-globex : ◌≢◌ {A = String} "acme" "globex"
acme-globex = λ e. let t = (eq_iff "acme" "globex").1 e in cc

perform_elsewhere_example :
    get_job db "globex" "j1" (perform db "acme" (completes "j1" "done") (one_job row))
    ≡ get_job db "globex" "j1" (one_job row)
perform_elsewhere_example =
    perform_elsewhere db "acme" "globex" "j1" (completes "j1" "done") (one_job row) acme-globex tt

attempts_in_turn-Failed_example :
    Failed db "acme" "j1" "echo" 3
      (attempts_in_turn db "acme" "j1" "echo" 0 (failing ∷ failing ∷ failing ∷ []) (one_job row))
      []
attempts_in_turn-Failed_example =
    attempts_in_turn-Failed db "acme" "j1" "echo" failing (failing ∷ failing ∷ []) (one_job row) row
      (failing-Fails, (failing-Fails, (failing-Fails, tt))) (omega arith) (unfold get_job in refl)
      refl

create_job-Completed_example :
    let created = (create_job db "j1" "b1" input empty).0 in
    Queued db "acme" "j1" created (record row { bull_job_id = some "b1" }) empty
    × Completed db "acme" "j1" "echo" "done" 2
        (attempts_in_turn db "acme" "j1" "echo" 0 (failing ∷ working ∷ []) created)
        []
create_job-Completed_example =
    create_job-Completed db "j1" "b1" "done" input high (failing ∷ []) working empty refl
      (failing-Fails, tt) working-Succeeds (omega arith)

abbrev show : ℕ → String
show n = if n == 0 then "0" else if n == 1 then "1" else "2"

abbrev bulk_context : HandlerContext
bulk_context = record { job_record_id = "j1"; org_id = "acme"; api_key_id = some "key" }

abbrev one_token : UnifiedUsage
one_token = record { prompt_tokens = 1; completion_tokens = 1 }

-- A provider that is down from some prompt on.
abbrev down_from : ℕ → ℕ → String → Outcome String (String × UnifiedUsage)
down_from n i prompt = if ltb i n then returned ("ok", one_token) else threw "down"

abbrev nothing_spent : JobSpend
nothing_spent = record { tables = record { rows = []; outbox = [] }; reports = [] }

abbrev three_prompts : List String
three_prompts = "a" ∷ "b" ∷ "c" ∷ []

-- The first attempt bills two prompts, the second only the third.
two_attempts :
    length
      (attempts_at show bulk_context "gpt-4o"
        (down_from 2 ∷ down_from 3 ∷ [])
        three_prompts
        nothing_spent).tables.rows
    ≡ 3
unfolding attempts_at chat_all record_usage_and_outbox
two_attempts = refl

attempts_at-IsPaid_example :
    (length
        (attempts_at show bulk_context "gpt-4o"
          (down_from 2 ∷ [])
          three_prompts
          nothing_spent).tables.rows
      ≤ 0 + 3)
    × IsConsistent
        (attempts_at show bulk_context "gpt-4o"
          (down_from 2 ∷ [])
          three_prompts
          nothing_spent).tables
    × ReturnsPaid show bulk_context "gpt-4o" 0 3 (
        chat_all show bulk_context "gpt-4o"
          (down_from 3)
          3
          0
          three_prompts
          (attempts_at show bulk_context "gpt-4o" (down_from 2 ∷ []) three_prompts nothing_spent))
attempts_at-IsPaid_example =
    attempts_at-IsPaid show bulk_context "gpt-4o" "key" (down_from 2 ∷ []) (down_from 3)
      three_prompts nothing_spent refl refl (refl, tt)
