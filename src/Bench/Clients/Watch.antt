-- ===== src/Bench/Clients/Watch.antt =====
-- bench/clients.py, `watch`: the tier and the blocklist, four times a second.
use lookout.Common.{ℕ, zero, suc, ◌+◌, false, List, [], ◌∷◌, ltb, if◌then◌else◌}
use lookout.Common.Dict
use lookout.Common.Text.{Text, text_eq}
use lookout.Common.Exec.{Exec, key_error, no_fuel, or_raise, pure, raise, lift, ◌>>=◌, ◌>>◌}
use lookout.Firewall.Machine.{Machine}
use lookout.Firewall.Names
use lookout.Firewall.Maps.{Firewall, Blocked, list_blocked}
use lookout.Firewall.Rules.{read_config}
use lookout.Bench.Numbers.{round}

-- A row, with the time in hundredths of a second.
pub record Sample : Type 0 where
  pub time : ℕ
  pub tier : ℕ
  pub blocked : List Text

abbrev pub cidrs_of : List Blocked → List Text
cidrs_of [] = []
cidrs_of (b ∷ bs) = b.cidr ∷ cidrs_of bs

module _ {W : Type 0} (m : Machine W) (sleep : ℕ → Exec W (Unit {0})) (fw : Firewall) where
  unfoldable pub sample : Exec W Sample
  sample = do
    now ← m.time
    cfg ← read_config m fw
    tier ← lift (or_raise (Dict.lookup Names.aggressiveness cfg) key_error)
    entries ← list_blocked m fw false
    pure (record { time = round now 10_000_000; tier = tier; blocked = cidrs_of entries })

  -- The loop, up to a time: the rows that it writes.
  unfoldable pub watch_from : ℕ → ℕ → Exec W (List Sample)
  unfolding sample
  watch_from until zero = raise no_fuel
  watch_from until (suc fuel) = do
    now ← m.time
    let rest = watch_from until fuel
    if ltb now until
        then (do row ← sample; sleep 250_000_000; rows ← rest; pure (row ∷ rows))
        else pure []

  unfoldable pub watch : ℕ → Exec W (List Sample)
  unfolding watch_from
  watch seconds = do now ← m.time; watch_from (now + seconds) (suc seconds)
