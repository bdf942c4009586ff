-- ===== src/Web/Cards/Routes/Runs.antt =====
-- Any number of requests to the card routes (apps/web/src/app/api/gr), each with others in its waits.
use genesis_reserve_smarter.Base.{ℕ, ◌+◌, String, Option, none, some, Bool, true, false, get_or}
use genesis_reserve_smarter.Base.Like.{cat}
use genesis_reserve_smarter.Base.Maps.{Dict, lookup}
use genesis_reserve_smarter.Web.Cards.{Store, Handler, IdempotencyResult}
use genesis_reserve_smarter.Web.Cards.Requests.{
  Incoming, Operation, Server, handle, with_idempotency, replay_or_run, replay_if, run_handler,
  keep_answer,
}
use genesis_reserve_smarter.Web.Cards.Routes.{
  serve, serve_as, run, Requests, done, request, kept_as,
}
use genesis_reserve_smarter.Web.Cards.Routes.Closed.{Closed}
use genesis_reserve_smarter.Web.Cards.Routes.Keeps.{handle-Keeping}
use genesis_reserve_smarter.Web.Cards.Routes.Handlers.{Keeping, refuse_if-Keeping}

-- Every request, at whatever depth, is one for which `Fits` holds.
abbrev pub AllFit : (Incoming → Type 0) → Requests → Type 0
AllFit Fits done = Unit
AllFit Fits (request i op before during after later) =
    Fits i × AllFit Fits before × AllFit Fits during × AllFit Fits after × AllFit Fits later

-- The waits of a request that keep a property.
abbrev pub Waits : (Store → Type 0) → (Store → Store) → Type 0
Waits P f = (s : Store) → P s → P (f s)

module _ {P : Store → Type 0} {Fits : Incoming → Type 0} (v : Server)
    (each : (i : Incoming) (op : Operation) (before during after : Store → Store)
      → Fits i
      → Waits P before
      → Waits P during
      → Waits P after
      → Waits P λ s. (serve v i op before during after s).0) where
  -- What each request keeps, any requests keep.
  pub run-Waits : (requests : Requests) → AllFit Fits requests → Waits P (run v requests)
  unfolding run
  run-Waits done h s p = p
  run-Waits (request i op before during after later) h s p = run-Waits later h.4 _ (
      each i op (run v before) (run v during) (run v after) h.0 (run-Waits before h.1)
        (run-Waits during h.2) (run-Waits after h.3) s p)

-- A property that does not look at the stored answers.
module _ {P : Store → Type 0} {Fits : Incoming → Type 0} (k : Closed P Fits)
    (answers : (s : Store) (m : Dict IdempotencyResult)
      → P s
      → P (record s { idempotency = m })) where
  run_handler-Keeping :
      (expires_at : ℕ) (id_key : String) (before after : Store → Store) (h : Handler)
      → Waits P before
      → Waits P after
      → Keeping P h
      → Keeping P (run_handler expires_at id_key before after h)
  unfolding run_handler keep_answer
  run_handler-Keeping expires_at id_key before after h b a hk s p = answers _ _ (a _ (hk _ (b s p)))

  replay_if-Keeping :
      (fresh : Bool) (existing : IdempotencyResult) (h : Handler)
      → Keeping P h
      → Keeping P (replay_if fresh existing h)
  unfolding replay_if
  replay_if-Keeping true existing h hk s p = p
  replay_if-Keeping false existing h hk s p = hk s p

  replay_or_run-Keeping :
      (now : ℕ) (o : Option IdempotencyResult) (h : Handler)
      → Keeping P h
      → Keeping P (replay_or_run now o h)
  unfolding replay_or_run
  replay_or_run-Keeping now none h hk s p = hk s p
  replay_or_run-Keeping now (some existing) h hk s p = replay_if-Keeping _ existing h hk s p

  serve_as-Keeping :
      (i : Incoming) (before after : Store → Store) (h : Handler) (o : Option (String × ℕ))
      → Waits P before
      → Waits P after
      → Keeping P h
      → Keeping P (serve_as i before after h o)
  unfolding serve_as with_idempotency
  serve_as-Keeping i before after h none b a hk s p = hk _ (b s p)
  serve_as-Keeping i before after h (some (name, ttl_ms)) b a hk s p =
      refuse_if-Keeping P _ _ _ _ _ _ s p λ _.
        let id_key = cat name (cat ":" (get_or i.idempotency_key "")) in
        replay_or_run-Keeping i.now (lookup id_key s.idempotency)
          (run_handler (i.now + ttl_ms) id_key before after h)
          (run_handler-Keeping (i.now + ttl_ms) id_key before after h b a hk) s p

  pub run-Keeps :
      (v : Server) (requests : Requests) → AllFit Fits requests → Waits P (run v requests)
  unfolding serve
  run-Keeps v requests =
      run-Waits {P = P} {Fits = Fits} v
        (λ i op before during after fits b d a s p.
          serve_as-Keeping i before after (handle v i during op) (kept_as op) b a
            (handle-Keeping k v i during op fits d) s p)
        requests
