-- ===== src/Cluster/Receiver/Backoff.antt =====
-- How long the edge waits before it connects again (`Run` and `nextReconnectDelay` of
-- internal/cluster/client.go).
use meow_frp_server.Prelude.{
  ℕ, zero, suc, ◌*◌, ◌^◌, ◌≤◌, ◌≡◌, refl, List, [], ◌∷◌, arith, ltb, length, if◌then◌else◌,
}
use meow_frp_server.Cluster.Types.{Message}
use meow_frp_server.Cluster.Receiver.{
  Receiver, next_reconnect_delay, end_connect, end_round, run_rounds,
}

-- The delay after some doublings, which stop at 30 seconds.
unfoldable pub doubled : ℕ → ℕ → ℕ
doubled zero delay = delay
doubled (suc n) delay = doubled n (if ltb (30 * 10 ^ 9) (delay * 2) then 30 * 10 ^ 9 else delay * 2)

doubled_le : (n delay : ℕ) → delay ≤ 30 * 10 ^ 9 → doubled n delay ≤ 30 * 10 ^ 9
unfolding doubled
doubled_le zero delay h = h
doubled_le (suc n) delay h =
    doubled_le n (if ltb (30 * 10 ^ 9) (delay * 2) then 30 * 10 ^ 9 else delay * 2)
      (ground (arith, h))

run_rounds_delay :
    (rounds : List (List Message)) (r : Receiver) (delay : ℕ)
    → (run_rounds rounds (r, delay)).1 ≡ doubled (length rounds) delay
unfolding run_rounds end_round end_connect next_reconnect_delay doubled
run_rounds_delay [] r delay = refl
run_rounds_delay (ms ∷ rest) r delay = run_rounds_delay rest _ _

-- The delay doubles with every round, up to 30 seconds, whatever messages the connections bring: it does not
-- go back to a second after a connection that was established, and never exceeds 30 seconds.
pub run_rounds-doubled :
    (rounds : List (List Message)) (r : Receiver) (delay : ℕ)
    → delay ≤ 30 * 10 ^ 9
    → ((run_rounds rounds (r, delay)).1 ≡ doubled (length rounds) delay)
      × ((run_rounds rounds (r, delay)).1 ≤ 30 * 10 ^ 9)
run_rounds-doubled rounds r delay h =
    let e = run_rounds_delay rounds r delay in (e, rw e (doubled_le (length rounds) delay h))
