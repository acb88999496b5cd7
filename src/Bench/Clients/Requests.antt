-- ===== src/Bench/Clients/Requests.antt =====
-- bench/clients.py: the connections and requests of the clients. Times are in nanoseconds.
use lookout.Common.{ℕ, ◌-◌, Bool, true, ◌==◌, if◌then◌else◌}
use lookout.Common.Text.{Text, codes}
use lookout.Common.Exec.{
  Exec, os_error, is_os_error, ignored, Result, ok, err, pure, raise, ◌>>=◌, ◌>>◌,
}
use lookout.Bpf.Prog.{with_exit}
use lookout.Bench.Clients.{Env, timeout, service_port}

-- The sockets and http.client.
pub record Network (W : Type 0) : Type 0 where
  -- `socket.socket`: true for a stream
  pub socket : Bool → Exec W ℕ
  -- `setsockopt` with SO_BINDTODEVICE, and `bind((CLIENT, 0))`
  pub bind_to_device : ℕ → Exec W (Unit {0})
  pub bind : ℕ → Exec W (Unit {0})
  pub set_timeout : ℕ → ℕ → Exec W (Unit {0})
  -- `s.connect((SERVER, port))`
  pub connect_to : ℕ → ℕ → Exec W (Unit {0})
  pub close : ℕ → Exec W (Unit {0})
  pub sendall : ℕ → Text → Exec W (Unit {0})
  -- `c.request("GET", path)`, which calls the connection's `connect`; the status; the body; the end
  pub request : Exec W ℕ → Text → Exec W (Unit {0})
  pub getresponse : Exec W ℕ
  pub read : Exec W (Unit {0})
  pub close_connection : Exec W (Unit {0})

-- WEB
abbrev pub web : ℕ
web = 8080

module _ {W A : Type 0} where
  -- `except OSError:` with a handler, which raises again
  abbrev pub reraise : Exec W (Unit {0}) → Result A × W → Result A × W
  reraise handler (ok a, w) = (ok a, w)
  reraise handler (err c, w) = if is_os_error c then (handler >>= λ done. raise c) w else (err c, w)

  unfoldable pub on_os_error : Exec W A → Exec W (Unit {0}) → Exec W A
  on_os_error body handler w = reraise handler (body w)

  unfoldable pub quietly : Exec W A → Exec W (Unit {0})
  quietly fn w = ignored (fn w)

module _ {W : Type 0} (env : Env W) (net : Network W) where
  unfoldable pub sock : Bool → Exec W ℕ
  sock stream = do s ← net.socket stream; net.bind_to_device s; net.bind s; pure s

  unfoldable pub connect : ℕ → Exec W ℕ
  unfolding sock on_os_error
  connect port = do
    s ← sock true
    net.set_timeout s timeout
    on_os_error (net.connect_to s port) (net.close s)
    pure s

  -- The time from the start of the request to the end of the answer. An answer whose status is not
  -- 200 is an OSError without a number.
  unfoldable pub get : Text → Exec W ℕ
  unfolding connect with_exit
  get path = do
    start ← env.monotonic
    with_exit
        (do
          net.request (connect web) path
          status ← net.getresponse
          net.read
          if status == 200 then pure tt else raise (os_error 0))
        net.close_connection
    now ← env.monotonic
    pure (now - start)

  -- What a thread of `services` does in second `i`.
  unfoldable pub services_one : ℕ → Exec W (Unit {0})
  unfolding connect with_exit quietly
  services_one i =
      quietly
        (do s ← connect (service_port i); with_exit (net.sendall s (codes "hello\n")) (net.close s))
