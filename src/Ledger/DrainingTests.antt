-- ===== src/Ledger/DrainingTests.antt =====
-- An event loop around one request, which libeio finishes in the first round.
use pecl_eio.Base.{is_some, ◌⊎◌, if◌then◌else◌, [], ◌∷◌, ◌≡◌}
use pecl_eio.Base.Int.{pos}
use pecl_eio.Base.Returns.{Returns}
use pecl_eio.World.{World}
use pecl_eio.Ledger.Draining.{Rounds}
use pecl_eio.Ledger.Tests.{begun, ended, finishing}

-- An event loop with the one request, which libeio finishes in the first round.
abbrev rounds : Rounds
rounds = record {
  nreqs = λ w. if is_some (w.store.reqs 7) then 1 else 0;
  steps = λ w. finishing ∷ [];
  finished = λ w. pos 0;
}

-- The request waits, or it is finished.
abbrev Waits : World → Type 0
Waits w = (w ≡ begun) ⊎ (w ≡ ended)
