-- ===== src/Bench/Clients.antt =====
-- bench/clients.py: the loops that pace the clients. Times are in nanoseconds.
pub mod Schedule
pub mod Rate
pub mod Watch
pub mod Requests
pub mod Probe
use lookout.Common.{ℕ, zero, suc, ◌+◌, ◌-◌, ◌*◌, ◌/◌, ◌%◌, List, [], ◌∷◌, ltb, if◌then◌else◌}
use lookout.Common.Exec.{Exec, pure, raise, no_fuel, ◌>>=◌, ◌>>◌}

-- The clock, the threads and the socket.
pub record Env (W : Type 0) : Type 0 where
  pub monotonic : Exec W ℕ
  pub sleep : ℕ → Exec W (Unit {0})
  -- `threading.Thread(target=fn, args=(i,), daemon=True)`, started
  pub start_thread : ℕ → Exec W (Unit {0})
  -- `threads[i].join(timeout)`
  pub join : ℕ → ℕ → Exec W (Unit {0})
  -- `s.sendto(query, (SERVER, 53))`
  pub sendto : Exec W (Unit {0})

abbrev pub second : ℕ
second = 1_000_000_000

-- TIMEOUT
abbrev pub timeout : ℕ
timeout = 3 * second

-- The port that `services` connects to in second `i`.
unfoldable pub service_port : ℕ → ℕ
service_port i = 9001 + i % 30

module _ {W : Type 0} (env : Env W) where
  -- The loop of `every`, from call `i` on; the number of threads.
  unfoldable pub every_from : ℕ → ℕ → ℕ → ℕ → ℕ → Exec W ℕ
  every_from interval seconds start zero i = raise no_fuel
  every_from interval seconds start (suc fuel) i =
      let due = start + i * interval in
      let rest = every_from interval seconds start fuel (suc i) in
      if ltb due (start + seconds)
      then (do now ← env.monotonic; env.sleep (due - now); env.start_thread i; rest)
      else pure i

  -- `for t in threads: t.join(TIMEOUT + 1)`: the last `left` of `n` threads
  unfoldable pub join_each : ℕ → ℕ → Exec W (Unit {0})
  join_each n zero = pure tt
  join_each n (suc left) = do env.join (n - suc left) (timeout + second); join_each n left

  unfoldable pub every : ℕ → ℕ → Exec W (Unit {0})
  unfolding every_from join_each
  every interval seconds = do
    start ← env.monotonic
    n ← every_from interval seconds start (suc seconds) 0
    join_each n n

  -- `while n < due`: the datagrams that are owed
  unfoldable pub send_each : ℕ → Exec W (Unit {0})
  send_each zero = pure tt
  send_each (suc owed) = do env.sendto; send_each owed

  -- The loop of `udp`, with `n` datagrams sent.
  unfoldable pub udp_from : ℕ → ℕ → ℕ → ℕ → ℕ → Exec W ℕ
  unfolding send_each
  udp_from seconds pps start zero n = raise no_fuel
  udp_from seconds pps start (suc fuel) n = do
    now ← env.monotonic
    let due = (now - start) * pps / second
    let next = (if ltb n due then due else n)
    let rest = udp_from seconds pps start fuel next
    (if ltb now (start + seconds)
        then (do send_each (due - n); env.sleep 1_000_000; rest)
        else pure n)

  unfoldable pub udp : ℕ → ℕ → Exec W ℕ
  unfolding udp_from
  udp seconds pps = do start ← env.monotonic; udp_from seconds pps start (suc seconds) 0
