-- ===== src/Jobs/Handlers.antt =====
-- apps/gateway/src/modules/jobs/handlers.ts: the handlers of the gateway's two job types. What the providers
-- answer is an argument, by the number of the prompt, and `show` prints a number.
use Prim.Native.String.{◌++◌ as ◌+++◌}
use cloud_mesh.Common.{
  ℕ, suc, ◌+◌, ◌*◌, ◌/◌, String, Bool, not, ◌&&◌, Option, none, some, List, [], ◌∷◌, ◌++◌, length,
  any, leb, str_eq, if◌then◌else◌,
}
use cloud_mesh.Tenant.{units}
use cloud_mesh.CircuitBreaker.{Outcome, returned, threw}
use cloud_mesh.Billing.Pricing.{UnifiedUsage}
use cloud_mesh.Billing.Usage.{RecordUsageParams, UsageTables, record_usage_and_outbox}
use cloud_mesh.Routing.{ModelRegistry, ResolvedModel, resolve}
use cloud_mesh.Jobs.{Percent, whole}

abbrev pub max_batch_items : ℕ
max_batch_items = 100

abbrev pub max_text_length : ℕ
max_text_length = 10_000

-- `z.string().min(1).max(high)`, of a text.
abbrev pub is_short : ℕ → String → Bool
is_short high s = leb 1 (units s) && leb (units s) high

-- The schema of `texts` and of `prompts`, for a payload that has an array of texts there.
abbrev pub is_batch : List String → Bool
is_batch ts =
    not (any (λ s. not (is_short max_text_length s)) ts)
    && (leb 1 (length ts) && leb (length ts) max_batch_items)

pub record BulkChat : Type 0 where
  pub model : String
  pub prompts : List String

abbrev pub invalid_payload : String
invalid_payload = "Invalid job payload"

unfoldable pub parse_bulk_chat : BulkChat → Outcome String BulkChat
parse_bulk_chat p =
    if is_short 200 p.model && is_batch p.prompts then returned p else threw invalid_payload

unfoldable pub parse_batch_embeddings : List String → Outcome String (List String)
parse_batch_embeddings ts = if is_batch ts then returned ts else threw invalid_payload

-- The part of the world that a handler changes: the bills, and the progress that it reports.
pub record JobSpend : Type 0 where
  pub tables : UsageTables
  pub reports : List Percent

pub record HandlerContext : Type 0 where
  pub job_record_id : String
  pub org_id : String
  pub api_key_id : Option String

-- `((i + 1) / n) * 100`, after the item with number `i`.
abbrev pub percent_after : ℕ → ℕ → Percent
percent_after i n = whole ((i + 1) * 100 / n)

abbrev pub report_progress : ℕ → ℕ → JobSpend → JobSpend
report_progress i n s = record s { reports = s.reports ++ percent_after i n ∷ [] }

abbrev pub push_result {ℓ} :
    {S : Type ℓ} {A : Type 0} → A → S × Outcome String (List A) → S × Outcome String (List A)
push_result a (s, returned as_done) = (s, returned (a ∷ as_done))
push_result a (s, threw message) = (s, threw message)

pub record EmbeddingsResult : Type 0 where
  pub count : ℕ
  pub dimensions : ℕ

-- The loop over the texts, where a vector is given by its length.
module _ (embed : ℕ → String → Outcome String ℕ) (total : ℕ) where
  abbrev pub after_embed :
      ℕ
      → (JobSpend → JobSpend × Outcome String (List ℕ))
      → JobSpend
      → Outcome String ℕ
      → JobSpend × Outcome String (List ℕ)
  after_embed i rest s (threw message) = (s, threw message)
  after_embed i rest s (returned vector) = push_result vector (rest (report_progress i total s))

  unfoldable pub embed_all : ℕ → List String → JobSpend → JobSpend × Outcome String (List ℕ)
  embed_all i [] s = (s, returned [])
  embed_all i (t ∷ ts) s = after_embed i (embed_all (suc i) ts) s (embed i t)

abbrev pub first_length : List ℕ → ℕ
first_length [] = 0
first_length (n ∷ ns) = n

abbrev pub embeddings_result :
    JobSpend × Outcome String (List ℕ) → JobSpend × Outcome String EmbeddingsResult
embeddings_result (s, threw message) = (s, threw message)
embeddings_result (s, returned vectors) =
    (s, returned (record { count = length vectors; dimensions = first_length vectors }))

unfoldable pub run_batch_embeddings :
    (ℕ → String → Outcome String ℕ)
    → List String
    → JobSpend
    → JobSpend × Outcome String EmbeddingsResult
unfolding embed_all
run_batch_embeddings embed texts s = embeddings_result (embed_all embed (length texts) 0 texts s)

module _ (show : ℕ → String) (ctx : HandlerContext) (model : String) where
  abbrev pub job_request_id : ℕ → String
  job_request_id i = "job:" +++ (ctx.job_record_id +++ (":" +++ show i))

  abbrev pub job_usage : String → ℕ → UnifiedUsage → RecordUsageParams
  job_usage key i usage = record {
    org_id = ctx.org_id;
    api_key_id = key;
    model = model;
    usage = usage;
    request_id = job_request_id i;
  }

  abbrev pub bill_with : Option String → ℕ → Option UnifiedUsage → UsageTables → UsageTables
  bill_with none i usage t = t
  bill_with (some key) i none t = t
  bill_with (some key) i (some usage) t =
      if str_eq key "" then t else (record_usage_and_outbox (job_usage key i usage) t).0

  abbrev pub bill_job_usage : ℕ → Option UnifiedUsage → JobSpend → JobSpend
  bill_job_usage i usage s = record s { tables = bill_with ctx.api_key_id i usage s.tables }

  module _ (chat : ℕ → String → Outcome String (String × UnifiedUsage)) (total : ℕ) where
    abbrev pub after_chat :
        ℕ
        → (JobSpend → JobSpend × Outcome String (List String))
        → JobSpend
        → Outcome String (String × UnifiedUsage)
        → JobSpend × Outcome String (List String)
    after_chat i rest s (threw message) = (s, threw message)
    after_chat i rest s (returned (content, usage)) =
        push_result content (rest (report_progress i total (bill_job_usage i (some usage) s)))

    unfoldable pub chat_all : ℕ → List String → JobSpend → JobSpend × Outcome String (List String)
    chat_all i [] s = (s, returned [])
    chat_all i (p ∷ ps) s = after_chat i (chat_all (suc i) ps) s (chat i p)

-- The handler of `bulk_chat`, with the chat of each provider's models.
module _ (show : ℕ → String) (registry : ModelRegistry)
    (chat : ResolvedModel → ℕ → String → Outcome String (String × UnifiedUsage)) where
  abbrev pub bulk_chat_with :
      HandlerContext
      → BulkChat
      → Option ResolvedModel
      → JobSpend
      → JobSpend × Outcome String (List String)
  bulk_chat_with ctx payload none s = (s, threw ("Unknown model: " +++ payload.model))
  bulk_chat_with ctx payload (some resolved) s =
      chat_all show ctx resolved.provider_model (chat resolved) (length payload.prompts) 0
        payload.prompts s

  unfoldable pub run_bulk_chat :
      HandlerContext → BulkChat → JobSpend → JobSpend × Outcome String (List String)
  unfolding chat_all
  run_bulk_chat ctx payload s = bulk_chat_with ctx payload (resolve registry payload.model) s
