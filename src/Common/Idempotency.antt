-- ===== src/Common/Idempotency.antt =====
-- IdempotencyInterceptor (src/common/interceptors/idempotency.interceptor.ts). A key is a number; the hash of
-- the request's body is an argument, and so is the handler, which works on a world of its own. When
-- the handler has answered, at its own time, the key is saved or, as the code allows, is not: both
-- are arguments. The code does not wait for that write; here it is over before the next request.
pub mod Replay
use kilo_backend.Prelude.{
  Bool, Option, false, if◌then◌else◌, ltb, none, not, some, true, ℕ, ◌+◌, ◌==◌,
}
use kilo_backend.Prelude.Action.{
  Action, Result, bad_request, conflict, gets, modify, or_throw, pure, skip, throw_if, ◌>>=◌, ◌>>◌,
}
use kilo_backend.Prelude.Table.{Table, find, number_key, put}

module _ (World Body : Type 0) where
  -- A row of IdempotencyKey.
  pub record IdempotencyKey : Type 0 where
    pub request_hash : ℕ
    pub response_body : Body
    pub expires_at : ℕ

  pub record Api : Type 0 where
    pub keys : Table ℕ IdempotencyKey
    pub world : World

abbrev pub idempotency_key_ttl : ℕ
idempotency_key_ttl = 86400000

module _ {World Body : Type 0} where
  abbrev pub with_world : Api World Body → Result Body × World → Result Body × Api World Body
  with_world s (r, w) = (r, record s { world = w })

  -- `next.handle()`
  abbrev pub handle : Action World Body → Action (Api World Body) Body
  handle handler s = with_world s (handler s.world)

  -- The upsert of `tap`, at the time of the answer; where it fails, nothing is written or thrown.
  unfoldable pub save_key : ℕ → Bool → ℕ → ℕ → Body → Action (Api World Body) (Unit {0})
  save_key answered false key hash body = skip
  save_key answered true key hash body = modify (λ s. record s {
    keys =
        put key
          (record {
            request_hash = hash;
            response_body = body;
            expires_at = answered + idempotency_key_ttl;
          })
          s.keys;
  })

  unfoldable pub run_handler : ℕ → Bool → ℕ → ℕ → Action World Body → Action (Api World Body) Body
  unfolding save_key
  run_handler answered saves key hash handler = do
    body ← handle handler
    save_key answered saves key hash body
    pure body

  -- The answer to a key that is saved and not over.
  unfoldable pub replay : ℕ → IdempotencyKey World Body → Action (Api World Body) Body
  replay hash e = do throw_if (not (e.request_hash == hash)) conflict; pure e.response_body

  unfoldable pub respond :
      ℕ
      → ℕ
      → Bool
      → ℕ
      → ℕ
      → Action World Body
      → Option (IdempotencyKey World Body)
      → Action (Api World Body) Body
  unfolding run_handler replay
  respond now answered saves key hash handler none = run_handler answered saves key hash handler
  respond now answered saves key hash handler (some e) =
      if ltb now e.expires_at then replay hash e else run_handler answered saves key hash handler

  unfoldable pub intercept :
      ℕ → ℕ → Bool → Option ℕ → ℕ → Action World Body → Action (Api World Body) Body
  unfolding respond
  intercept now answered saves header hash handler = do
    key ← or_throw bad_request header
    existing ← gets (λ s. find key s.keys)
    respond now answered saves key hash handler existing
