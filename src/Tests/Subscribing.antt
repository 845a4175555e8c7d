-- ===== src/Tests/Subscribing.antt =====
-- The automatic subscriptions.
use smartthings4cpp.Base.{
  Bool, true, false, ◌||◌, ◌&&◌, not, List, [], ◌∷◌, Option, none, some, Bytes, str, ◌≡◌, refl,
  arith, eqb, is_empty,
}
use smartthings4cpp.Base.Set
use smartthings4cpp.Http.{Cpr}
use smartthings4cpp.Subscriptions.{Hub}
use smartthings4cpp.Subscriptions.Automatic.{maybe_subscribe_device, flush_pending_subscriptions}
use smartthings4cpp.Subscriptions.Automatic.Settled.{
  is_held, maybe_subscribe-held, flush_pending-held,
}
use smartthings4cpp.Tests.SampleJson.{sample_json}
use smartthings4cpp.Tests.Fixtures.{answers, hub_of}
use smartthings4cpp.Storage.{File}

abbrev limited : Cpr
limited = answers 429 []

abbrev hub : Hub File
hub = hub_of (b't' ∷ [])

abbrev device : Bytes
device = b'e' ∷ []

maybe_subscribe-held_example :
    ((k : Bytes)
      → is_held k (maybe_subscribe_device sample_json limited device hub []).0
        ≡ (eqb device k || is_held k hub))
    × ((k : Bytes)
        → Set.contains k (maybe_subscribe_device sample_json limited device hub []).0.in_flight
          ≡ Set.contains k hub.in_flight)
    × ((maybe_subscribe_device sample_json limited device hub []).0.is_oauth ≡ true)
unfolding Set.contains
maybe_subscribe-held_example = maybe_subscribe-held sample_json limited device hub [] refl refl refl

flush_pending-held_example :
    is_held (b'd' ∷ []) (flush_pending_subscriptions sample_json limited (λ wire. false) hub []).0
    ≡ true
unfolding Set.contains smartthings4cpp.Base.Dict.lookup eqb
flush_pending-held_example =
    flush_pending-held sample_json limited (λ wire. false) (b'd' ∷ []) hub [] refl refl (λ j. refl)
      refl
