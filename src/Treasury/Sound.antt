-- ===== src/Treasury/Sound.antt =====
-- Reserving funds keeps the ledger sound (apps/api/src/treasury/treasury.service.ts).
use genesis_reserve_smarter.Base.{ℕ, sym, subst, String, Option}
use genesis_reserve_smarter.Base.Int.{ℤ}
use genesis_reserve_smarter.Database.{Tables}
use genesis_reserve_smarter.Effect.{World, Outcome, done, threw, world_of}
use genesis_reserve_smarter.Effect.Atomic.{Gives}
use genesis_reserve_smarter.Effect.Always.{Always}
use genesis_reserve_smarter.Ledger.Posting.{HashInput}
use genesis_reserve_smarter.Ledger.Books.{AreSound}
use genesis_reserve_smarter.Ledger.Books.Kept.{post_entry-AreSound}
use genesis_reserve_smarter.Compliance.Screens.{ScreeningResult, screen_transfer}
use genesis_reserve_smarter.Compliance.Verdict.{KeepsRest, Screened, screen_transfer-Screened}
use genesis_reserve_smarter.Treasury.{ReserveRequest, Memory}
use genesis_reserve_smarter.Treasury.Reserve.{ReserveInputs, reserve_funds}
use genesis_reserve_smarter.Treasury.Rows.{reserve_funds-Always}

-- What a screening of a transfer keeps of the tables.
pub Screened-KeepsRest :
    (lower : String → String) (cast : String → Option ℤ) (address : String) (amount : ℤ)
    (order_id : String) (now : ℕ)
    → Always KeepsRest (screen_transfer lower cast address address amount order_id now)
Screened-KeepsRest lower cast address amount order_id now w =
    rest_of (screen_transfer lower cast address address amount order_id now w)
      (screen_transfer-Screened lower cast address address amount order_id now w)
  where
    rest_of :
        (o : Outcome Tables ScreeningResult)
        → Gives (Screened lower address address amount now w.db) o
        → KeepsRest w.db (world_of o).db
    rest_of (done r v) h = h.rest
    rest_of (threw e v) h = absurd h

module _ (digest : HashInput → String) where
  abbrev SoundTo : Tables → Tables → Type 0
  SoundTo t t' = AreSound digest t → AreSound digest t'

  KeepsRest-SoundTo : (t t' : Tables) → KeepsRest t t' → SoundTo t t'
  KeepsRest-SoundTo t t' rest sound =
      subst (AreSound digest) (sym rest)
        (record { derived = sound.derived; balanced = sound.balanced; chained = sound.chained })

  -- A request to reserve funds keeps the ledger sound, whatever statement, screening or call of the
  -- vault fails in it.
  pub reserve_funds-AreSound :
      (lower : String → String) (cast : String → Option ℤ) (req : ReserveRequest)
      (i : ReserveInputs) (w : World Memory)
      → AreSound digest w.db.backend.tables
      → AreSound digest (world_of (reserve_funds digest lower cast req i w)).db.backend.tables
  reserve_funds-AreSound lower cast req i w sound =
      reserve_funds-Always SoundTo (λ t h. h) (λ t u v h k s. k (h s)) digest lower cast
        (λ p now. post_entry-AreSound digest p now)
        (λ address amount order_id now v.
          KeepsRest-SoundTo v.db _ (Screened-KeepsRest lower cast address amount order_id now v))
        req i w sound
