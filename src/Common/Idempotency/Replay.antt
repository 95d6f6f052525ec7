-- ===== src/Common/Idempotency/Replay.antt =====
-- A repeated request is answered as before and not handled again
-- (src/common/interceptors/idempotency.interceptor.ts).
use kilo_backend.Common.Idempotency.{
  Api, IdempotencyKey, idempotency_key_ttl, intercept, replay, respond, run_handler, save_key,
  with_world,
}
use kilo_backend.Prelude.{
  Bool, Bool-cases, List, Option, [], ap, arith, false, if◌then◌else◌, inl, inr, ltb, none, refl,
  some, true, ℕ, ◌+◌, ◌<◌, ◌==◌, ◌∙◌, ◌∷◌, ◌≡◌, ◌≢◌, ◌≤◌,
}
use kilo_backend.Prelude.Action.{
  Action, Ensures, Ensures-ok, Result, conflict, err, go_on, ok, pure, ◌>>◌,
}
use kilo_backend.Prelude.Lists.{All}
use kilo_backend.Prelude.Table.{find, find-put_ne, find-put_self, number_key, same?}
use mathlib.Core.Path.{subst}

module _ (World Body : Type 0) where
  -- A request with its time, that of its answer, its key, hash and handler, and whether its upsert
  -- succeeds.
  pub record Request : Type 0 where
    pub now : ℕ
    pub answered : ℕ
    pub saves : Bool
    pub header : Option ℕ
    pub hash : ℕ
    pub handler : Action World Body

module _ {World Body : Type 0} where
  abbrev pub serve_request : Request World Body → Action (Api World Body) Body
  serve_request r = intercept r.now r.answered r.saves r.header r.hash r.handler

  unfoldable pub intercept_all : List (Request World Body) → Api World Body → Api World Body
  unfolding intercept
  intercept_all [] s = s
  intercept_all (r ∷ rs) s = intercept_all rs (serve_request r s).1

  -- The key holds this answer.
  pub Saves : ℕ → IdempotencyKey World Body → Api World Body → Type 0
  Saves key e s = find key s.keys ≡ some e

  -- No answer that is still in time is saved.
  abbrev pub IsFree : ℕ → Option (IdempotencyKey World Body) → Type 0
  IsFree now none = Unit
  IsFree now (some e) = e.expires_at ≤ now

  abbrev pub kept_for : ℕ → ℕ → Body → IdempotencyKey World Body
  kept_for answered hash b = record {
    request_hash = hash;
    response_body = b;
    expires_at = answered + idempotency_key_ttl;
  }

  -- The handler has given this answer and made this world, and the key holds the answer.
  abbrev pub Handled :
      ℕ → ℕ → ℕ → Action World Body → Api World Body → Body → Api World Body → Type 0
  Handled answered key hash handler s b s' =
      (handler s.world ≡ (ok b, s'.world)) × Saves key (kept_for answered hash b) s'

  run_handler_lem :
      (answered key hash : ℕ) (handler : Action World Body) (s : Api World Body)
      → Ensures (Handled answered key hash handler s) (run_handler answered true key hash handler s)
  unfolding run_handler save_key Saves
  run_handler_lem answered key hash handler s = go (handler s.world) refl
    where
      rest : Body → Action (Api World Body) Body
      rest body = do save_key answered true key hash body; pure body

      go :
          (r : Result Body × World)
          → handler s.world ≡ r
          → Ensures (Handled answered key hash handler s) (go_on rest (with_world s r))
      go (ok b, w) e = (e, find-put_self key (kept_for answered hash b) s.keys)
      go (err x, w) e = tt

  respond_lem :
      (now answered key hash : ℕ) (handler : Action World Body)
      (o : Option (IdempotencyKey World Body)) (s : Api World Body)
      → IsFree now o
      → Ensures
          (Handled answered key hash handler s)
          (respond now answered true key hash handler o s)
  unfolding respond
  respond_lem now answered key hash handler none s free =
      run_handler_lem answered key hash handler s
  respond_lem now answered key hash handler (some e) s free =
      let over : ltb now e.expires_at ≡ false = ground (arith, free) in
      rw over (run_handler_lem answered key hash handler s)

  intercept_lem :
      (now answered key hash : ℕ) (handler : Action World Body) (s : Api World Body)
      → IsFree now (find key s.keys)
      → Ensures
          (Handled answered key hash handler s)
          (intercept now answered true (some key) hash handler s)
  unfolding intercept
  intercept_lem now answered key hash handler s free =
      respond_lem now answered key hash handler (find key s.keys) s free

  -- While an answer is saved, no request with its key runs its handler or changes anything.
  saved_answers :
      (now answered : ℕ) (saves : Bool) (key hash : ℕ) (handler : Action World Body)
      (e : IdempotencyKey World Body) (s : Api World Body)
      → Saves key e s
      → now < e.expires_at
      → intercept now answered saves (some key) hash handler s ≡ replay hash e s
  unfolding intercept respond Saves
  saved_answers now answered saves key hash handler e s at live =
      let in_time : ltb now e.expires_at ≡ true = ground (arith, live) in rw (at, in_time) refl

  replay_of :
      (hash : ℕ) (e : IdempotencyKey World Body) (s : Api World Body)
      → replay hash e s
        ≡ (if e.request_hash == hash then (ok e.response_body, s) else (err conflict, s))
  unfolding replay
  replay_of hash e s = elim (Bool-cases (e.request_hash == hash)) [
    | inl m ↦ rw m refl
    | inr m ↦ rw m refl
  ]

  replay_state :
      (hash : ℕ) (e : IdempotencyKey World Body) (s : Api World Body) → (replay hash e s).1 ≡ s
  unfolding replay
  replay_state hash e s = elim (Bool-cases (e.request_hash == hash)) [
    | inl m ↦ rw m refl
    | inr m ↦ rw m refl
  ]

  other_run :
      (answered : ℕ) (saves : Bool) (key k hash : ℕ) (handler : Action World Body)
      (e : IdempotencyKey World Body) (s : Api World Body)
      → key ≢ k
      → Saves key e s
      → Saves key e (run_handler answered saves k hash handler s).1
  unfolding run_handler save_key Saves
  other_run answered saves key k hash handler e s apart at = go saves (handler s.world)
    where
      rest : Bool → Body → Action (Api World Body) Body
      rest b body = do save_key answered b k hash body; pure body

      go : (b : Bool) (r : Result Body × World) → Saves key e (go_on (rest b) (with_world s r)).1
      go true (ok b, w) = find-put_ne key k _ s.keys apart ∙ at
      go false (ok b, w) = at
      go true (err x, w) = at
      go false (err x, w) = at

  other_respond :
      (now answered : ℕ) (saves : Bool) (key k hash : ℕ) (handler : Action World Body)
      (e : IdempotencyKey World Body) (o : Option (IdempotencyKey World Body)) (s : Api World Body)
      → key ≢ k
      → Saves key e s
      → Saves key e (respond now answered saves k hash handler o s).1
  unfolding respond Saves
  other_respond now answered saves key k hash handler e none s apart at =
      other_run answered saves key k hash handler e s apart at
  other_respond now answered saves key k hash handler e (some x) s apart at =
      elim (Bool-cases (ltb now x.expires_at)) [
        | inl l ↦ rw l (ap (λ u. find key u.keys) (replay_state hash x s) ∙ at)
        | inr l ↦ rw l (other_run answered saves key k hash handler e s apart at)
      ]

  intercept_keeps :
      (r : Request World Body) (header : Option ℕ) (key : ℕ) (e : IdempotencyKey World Body)
      (s : Api World Body)
      → r.now < e.expires_at
      → Saves key e s
      → Saves key e (intercept r.now r.answered r.saves header r.hash r.handler s).1
  unfolding intercept Saves
  intercept_keeps r none key e s live at = at
  intercept_keeps r (some k) key e s live at = go (same? key k)
    where
      after : ℕ → Api World Body
      after j = (intercept r.now r.answered r.saves (some j) r.hash r.handler s).1

      go : Dec (key ≡ k) → Saves key e (after k)
      go (yes same) =
          subst (λ j. Saves key e (after j)) same
            (rw (saved_answers r.now r.answered r.saves key r.hash r.handler e s at live)
              (ap (λ u. find key u.keys) (replay_state r.hash e s) ∙ at))
      go (no apart) =
          other_respond r.now r.answered r.saves key k r.hash r.handler e (find k s.keys) s apart at

  all_keep :
      (rs : List (Request World Body)) (key : ℕ) (e : IdempotencyKey World Body)
      (s : Api World Body)
      → All (λ r. r.now < e.expires_at) rs
      → Saves key e s
      → Saves key e (intercept_all rs s)
  unfolding intercept_all
  all_keep [] key e s early at = at
  all_keep (r ∷ rs) key e s early at =
      all_keep rs key e (serve_request r s).1 early.1
        (intercept_keeps r r.header key e s early.0 at)

  -- Where a request with a key that holds no answer in time has been answered and its upsert has
  -- succeeded: its handler has run and given this answer, the key holds the answer for 24 hours from
  -- then, and after any other requests within that time, with any keys, handlers and upserts that
  -- fail or not, a request within it with the same key and the same body has the same answer, one
  -- with the same key and another body is a conflict, and neither is handled: nothing changes.
  pub replayed_until_over :
      (now answered key hash : ℕ) (handler : Action World Body) (rs : List (Request World Body))
      (again : Request World Body) (s : Api World Body) {b : Body} {s' : Api World Body}
      → IsFree now (find key s.keys)
      → intercept now answered true (some key) hash handler s ≡ (ok b, s')
      → All (λ r. r.now < answered + idempotency_key_ttl) rs
      → again.now < answered + idempotency_key_ttl
      → again.header ≡ some key
      → (handler s.world ≡ (ok b, s'.world))
        × (find key s'.keys ≡ some (kept_for answered hash b))
        × (serve_request again (intercept_all rs s') ≡ (
            if hash == again.hash
            then (ok b, intercept_all rs s')
            else (err conflict, intercept_all rs s')))
  unfolding Saves
  replayed_until_over now answered key hash handler rs again s {b} {s'} free ran early live same =
      let e : IdempotencyKey World Body = kept_for answered hash b in
      let done : Handled answered key hash handler s b s' =
        Ensures-ok (Handled answered key hash handler s)
          (intercept_lem now answered key hash handler s free) ran in
      let then_saved : Saves key e (intercept_all rs s') = all_keep rs key e s' early done.1 in
      (
        done.0,
        done.1,
        rw same (
            saved_answers again.now again.answered again.saves key again.hash again.handler e
              (intercept_all rs s') then_saved live
            ∙ replay_of again.hash e (intercept_all rs s')),
      )
