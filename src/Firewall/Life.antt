-- ===== src/Firewall/Life.antt =====
-- control/firewall.py, class Firewall: `__init__`, `close`, the `with` statement, and `prog_info`.
pub mod Descriptors
pub mod Opening
use lookout.Common.{ℕ, true, false, List, [], ◌∷◌, ◌++◌, Option, some}
use lookout.Common.Text.{Text, codes}
use lookout.Common.Exec.{Exec, pure, ◌>>=◌, ◌>>◌}
use lookout.Bpf.Kernel.{Kernel}
use lookout.Bpf.Map.{BpfMap, new_map}
use lookout.Bpf.Prog.{System, ProgInfo, close_each, with_exit, read_info}
use lookout.Firewall.Maps.{Firewall}

abbrev pub descriptors : Firewall → List ℕ
descriptors fw =
    fw.allowlist.fd ∷ fw.blocklist.fd ∷ fw.portrules.fd ∷ fw.srcstate.fd ∷ fw.stats.fd
    ∷ fw.config.fd ∷ []

abbrev pub still_open : List ℕ → List (Option ℕ)
still_open [] = []
still_open (fd ∷ fds) = some fd ∷ still_open fds

module _ {W : Type 0} (k : Kernel W) (sys : System W) (pin_dir : Text) where
  unfoldable pub new_firewall : Exec W Firewall
  new_firewall = do
    allowlist ← new_map k (pin_dir ++ codes "/allowlist") 8 16 false
    blocklist ← new_map k (pin_dir ++ codes "/blocklist") 8 24 false
    portrules ← new_map k (pin_dir ++ codes "/portrules") 4 16 true
    srcstate ← new_map k (pin_dir ++ codes "/srcstate") 4 104 false
    stats ← new_map k (pin_dir ++ codes "/stats") 4 8 true
    config ← new_map k (pin_dir ++ codes "/config") 4 32 false
    pure (record {
      allowlist = allowlist;
      blocklist = blocklist;
      portrules = portrules;
      srcstate = srcstate;
      stats = stats;
      config = config;
    })

  unfoldable pub close_maps : Firewall → Exec W (Unit {0})
  close_maps fw = do closed ← close_each k sys (still_open (descriptors fw)); pure tt

  -- `with Firewall() as fw: return handler(fw)`
  unfoldable pub with_firewall : {A : Type 0} → (Firewall → Exec W A) → Exec W A
  with_firewall handler = do fw ← new_firewall; with_exit (handler fw) (close_maps fw)

  unfoldable pub prog_info : Exec W ProgInfo
  unfolding read_info
  prog_info = read_info k sys (pin_dir ++ codes "/xdp_firewall")
