-- ===== src/Registry/Interval.antt =====
-- The state of the polling thread of src/client.cpp: `startPolling`, `stopPolling`, `isPolling`,
-- `setPollingInterval` and `getPollingInterval`. What the thread does in a round is `Registry.Polling`.
use smartthings4cpp.Base.{
  ℕ, Bool, true, false, ◌≡◌, ◌≤◌, inl, inr, arith, refl, if◌then◌else◌, ltb, Bool-cases,
}
use smartthings4cpp.Base.Int.{ℤ, pos, negsuc}

-- `running` is `_pollingRunning`; the thread lives while it holds. The interval is in milliseconds.
pub record Poller : Type 0 where
  pub running : Bool
  pub interval : ℤ

abbrev min_polling_interval : ℕ
min_polling_interval = 5000

abbrev default_polling_interval : ℕ
default_polling_interval = 10000

new_poller : Poller
new_poller = record { running = false; interval = pos default_polling_interval }

-- `std::max(interval, MIN_POLLING_INTERVAL)`
max_interval : ℤ → ℤ
max_interval (pos n) = if ltb n min_polling_interval then pos min_polling_interval else pos n
max_interval (negsuc n) = pos min_polling_interval

start_polling : Poller → Poller
start_polling p = if p.running then p else record p { running = true }

-- The thread has been joined when it returns.
stop_polling : Poller → Poller
stop_polling p = if p.running then record p { running = false } else p

is_polling : Poller → Bool
is_polling p = p.running

set_polling_interval : ℤ → Poller → Poller
set_polling_interval interval p = record p { interval = max_interval interval }

get_polling_interval : Poller → ℤ
get_polling_interval p = p.interval

-- The states that calls in any order lead to.
data Reached : Poller → Type 0 where
  fresh : Reached new_poller
  started : {p : Poller} → Reached p → Reached (start_polling p)
  stopped : {p : Poller} → Reached p → Reached (stop_polling p)
  changed : {p : Poller} (interval : ℤ) → Reached p → Reached (set_polling_interval interval p)

max_interval-min : (interval : ℤ) → (n : ℕ) × (max_interval interval ≡ pos n) × (5000 ≤ n)
unfolding max_interval
max_interval-min (negsuc n) = (5000, refl, omega arith)
max_interval-min (pos n) = elim (Bool-cases (ltb n 5000)) [
  | inl e ↦ (5000, ground (arith, e), omega arith)
  | inr e ↦ (n, ground (arith, e), grind (arith, e))
]

-- The thread never waits for less than five seconds, whatever interval has been asked for.
reachable_interval :
    (p : Poller) → Reached p → (n : ℕ) × (get_polling_interval p ≡ pos n) × (5000 ≤ n)
unfolding get_polling_interval new_poller start_polling stop_polling set_polling_interval
reachable_interval _ fresh = (10000, refl, omega arith)
reachable_interval _ (started {p} r) = elim (Bool-cases p.running) [
  | inl e ↦ ground (arith, e, reachable_interval p r)
  | inr e ↦ ground (arith, e, reachable_interval p r)
]
reachable_interval _ (stopped {p} r) = elim (Bool-cases p.running) [
  | inl e ↦ ground (arith, e, reachable_interval p r)
  | inr e ↦ ground (arith, e, reachable_interval p r)
]
reachable_interval _ (changed interval r) = max_interval-min interval
