-- ===== src/Web/Cards/Routes/Replay.antt =====
-- Repeated requests to the card routes (apps/web/src/app/api/gr/_lib/card-service.ts).
use genesis_reserve_smarter.Base.{ℕ, ◌<◌, String, ◌≡◌, some}
use genesis_reserve_smarter.Base.Maps.{lookup}
use genesis_reserve_smarter.Web.Cards.{Store, IdempotencyResult}
use genesis_reserve_smarter.Web.Cards.Requests.{Incoming}
use genesis_reserve_smarter.Web.Cards.Routes.{Requests}
use genesis_reserve_smarter.Web.Cards.Routes.Closed.{Closed}

-- The answer that is stored under the key.
abbrev pub Stores : String → IdempotencyResult → Store → Type 0
Stores id_key e s = lookup id_key s.idempotency ≡ some e

-- A request that comes before the answer expires.
abbrev pub IsBefore : ℕ → Incoming → Type 0
IsBefore moment i = i.now < moment
