-- ===== src/WaitGroup.antt =====
-- include/hfts/waitgroup.hpp. The counter is an unsigned int.
use hfts.Base.{
  ℕ, zero, suc, ◌+◌, ◌-◌, ◌%◌, ◌<◌, ◌≤◌, ◌≡◌, refl, Bool, true, false, Option, none, some, ◌==◌,
  if◌then◌else◌, dec32, u32_mod, arith,
}

-- WaitGroup::Data; `notified` counts the calls of cv.notify_all.
pub record WaitGroup : Type 0 where
  pub count : ℕ
  pub notified : ℕ

-- WaitGroup::WaitGroup
unfoldable pub make : ℕ → WaitGroup
make initial_count = record { count = initial_count; notified = 0 }

-- WaitGroup::add
unfoldable pub add : ℕ → WaitGroup → WaitGroup
add n g = record g { count = (g.count + n) % u32_mod }

-- WaitGroup::done
unfoldable pub done : WaitGroup → WaitGroup × Bool
done g =
    let count = dec32 g.count in
    if count == 0
    then (record { count = count; notified = suc g.notified }, true)
    else (record g { count = count }, false)

-- WaitGroup::wait returns, or blocks.
unfoldable pub wait : WaitGroup → Option WaitGroup
wait g = if g.count == 0 then some g else none

-- `n` calls of `done`, and whether the last one has returned true.
unfoldable pub dones : ℕ → WaitGroup → WaitGroup × Bool
dones zero g = (g, false)
dones (suc n) g = let r = dones n g in done r.0

dones_early :
    (n : ℕ) (g : WaitGroup)
    → n < g.count
    → g.count < u32_mod
    → ((dones n g).0.count ≡ g.count - n)
      × ((dones n g).1 ≡ false)
      × ((dones n g).0.notified ≡ g.notified)
unfolding dones done
dones_early zero g h b = (omega arith, refl, refl)
dones_early (suc n) g h b = ground (arith, dones_early n g)

-- Of as many calls of `done` as the counter says, below 2 ^ 32, only the last returns true and
-- notifies. Before it a wait blocks, and after it a wait returns.
pub dones_lem :
    (n k : ℕ) (g : WaitGroup)
    → g.count ≡ suc n
    → suc n < u32_mod
    → k ≤ n
    → ((dones k g).1 ≡ false)
      × (wait (dones k g).0 ≡ none)
      × ((dones k g).0.notified ≡ g.notified)
      × ((dones (suc n) g).1 ≡ true)
      × ((dones (suc n) g).0.notified ≡ suc g.notified)
      × (wait (dones (suc n) g).0 ≡ some (dones (suc n) g).0)
unfolding dones done wait
dones_lem n k g e b h = ground (arith, dones_early k g, dones_early n g)

-- Adding to a group whose counter is not 0, and as many calls of `done`, give the counter back, and
-- none of the calls returns true, if the sum does not wrap.
pub dones-add :
    (n : ℕ) (g : WaitGroup)
    → 0 < g.count
    → g.count + n < u32_mod
    → ((dones n (add n g)).0.count ≡ g.count) × ((dones n (add n g)).1 ≡ false)
unfolding add
dones-add n g pos b = ground (arith, dones_early n (add n g))
