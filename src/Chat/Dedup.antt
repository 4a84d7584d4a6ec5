-- ===== src/Chat/Dedup.antt =====
-- apps/gateway/src/lib/requestDedup.ts: identical requests under way share one call.
use Prim.Native.String.{◌++◌ as ◌+++◌}
use cloud_mesh.Common.{String, Option, none, some}
use cloud_mesh.CircuitBreaker.{Outcome, returned, threw}
use cloud_mesh.Chat.{
  Redis, Serving, UnifiedChatResponse, CallFailure, DedupEntry, processing, result,
}

module _ (redis : Redis) (W : Type 0) where
  open redis.dedups use {Store, get, put, del}

  abbrev pub Served : Type 0
  Served = Serving redis W × Outcome CallFailure UnifiedChatResponse

  -- The leader's `try`.
  abbrev pub publish : String → Served → Served
  publish key (s, returned r) = (record s { dedup = put s.dedup key (result r) }, returned r)
  publish key (s, threw e) = (record s { dedup = del s.dedup key }, threw e)

  -- A follower that has heard of no result calls for itself.
  abbrev pub after_wait :
      (Serving redis W → Served) → Serving redis W × Option UnifiedChatResponse → Served
  after_wait fn (s, none) = fn s
  after_wait fn (s, some r) = (s, returned r)

  abbrev pub by_entry :
      String
      → (Serving redis W → Served)
      → (Serving redis W → Serving redis W × Option UnifiedChatResponse)
      → Option DedupEntry
      → Serving redis W
      → Served
  by_entry key fn wait none s = publish key (fn (record s { dedup = put s.dedup key processing }))
  by_entry key fn wait (some processing) s = after_wait fn (wait s)
  by_entry key fn wait (some (result r)) s = (s, returned r)

  -- `wait` is `waitForLeader` up to its fallback: all that happens meanwhile, and the result that
  -- was found or published, if one was in time.
  unfoldable pub with_request_dedup :
      String
      → (Serving redis W → Served)
      → (Serving redis W → Serving redis W × Option UnifiedChatResponse)
      → Serving redis W
      → Served
  with_request_dedup key fn wait s =
      let r_key = "dedup:" +++ key in by_entry r_key fn wait (get s.dedup r_key) s
