-- ===== src/Checks/Listings.antt =====
-- control/fwctl.py, the listings, over a kernel that holds three allowlist entries, a block and a
-- source.
use lookout.Common.{
  ℕ, ◌≡◌, refl, List, [], ◌∷◌, ◌++◌, some, none, ◌==◌, if◌then◌else◌, length, false,
}
use lookout.Common.Int.{pos}
use lookout.Common.Dict
use lookout.Common.Text.{codes, show, text_beq}
use lookout.Common.Exec.{ok, ◌>>=◌}
use lookout.Bpf.Kernel.{Kernel}
use lookout.Bpf.Map
use lookout.Bpf.Map.{BpfMap}
use lookout.Detect.State.{zeros}
use lookout.Firewall.Address.{inet_ntoa}
use lookout.Firewall.Keys
use lookout.Firewall.Layout.{Bytes, of_le, unpack, unpack_fields, zero_bytes}
use lookout.Firewall.Machine.{Machine}
use lookout.Firewall.Maps
use lookout.Firewall.Maps.{Firewall, Allowed, Blocked}
use lookout.Firewall.Rules
use lookout.Fwctl.{cmd_top}
use lookout.Fwctl.Lists.{
  AllowArgs, BlockArgs, Sources, cmd_allow, cmd_block, lines, allow_entry, block_entry,
}
use lookout.Fwctl.Listings.{Ranks, shown_of, cmd_lists-Ranks}
use lookout.Checks.Firewall.{kernel, machine, firewall, a_map}

abbrev net : ℕ → Bytes
net n = 32 ∷ 0 ∷ 0 ∷ 0 ∷ 10 ∷ 0 ∷ 0 ∷ n ∷ []

abbrev hits : ℕ → Bytes
hits n = n ∷ zero_bytes 15

-- By the descriptor of the map.
abbrev held : ℕ → List (Bytes × Bytes)
held fd =
    if fd == 4
    then (net 1, hits 5) ∷ (net 2, hits 9) ∷ (net 3, hits 5) ∷ []
    else if fd == 5
    then (net 4, zero_bytes 8 ++ hits 7) ∷ []
    else (10 ∷ 0 ∷ 0 ∷ 5 ∷ [], zero_bytes 32 ++ 6 ∷ zero_bytes 71) ∷ []

abbrev full_kernel : Kernel ℕ
full_kernel = record kernel {
  lookup_batch =
      λ fd token count flags w. (record { entries = held fd; token = []; errno = some 2 }, w);
}

abbrev full_machine : Machine ℕ
full_machine = record machine { kernel = full_kernel }

abbrev full : Firewall
full = record firewall {
  allowlist = record (a_map 8 16) { fd = 4 };
  blocklist = record (a_map 8 24) { fd = 5 };
}

abbrev allowed : List Allowed
allowed =
    record { cidr = codes "10.0.0.1/32"; hits = 5 }
    ∷ record { cidr = codes "10.0.0.2/32"; hits = 9 }
    ∷ record { cidr = codes "10.0.0.3/32"; hits = 5 }
    ∷ []

abbrev blocks : List Blocked
blocks =
    record { cidr = codes "10.0.0.4/32"; hits = 7; reason = 0; remaining = none; expired = false }
    ∷ []

abbrev states : Sources
states = (codes "10.0.0.5", record zeros { packets = 6 }) ∷ []

reads_states : Rules.read_states full_machine full 7 ≡ (ok states, 7)
unfolding Rules.read_states Rules.states_of Rules.src_state Map.items Map.batch Map.batch_from
    Map.batch_on unpack unpack_fields of_le inet_ntoa show Dict.insert text_beq ◌>>=◌
reads_states = refl

reads_allowed : Maps.list_allowed full_machine full 7 ≡ (ok allowed, 7)
unfolding Maps.list_allowed Maps.show_allowed Maps.first_num Map.items Map.batch Map.batch_from
    Map.batch_on Keys.unpack_cidr unpack unpack_fields of_le inet_ntoa show ◌>>=◌
reads_allowed = refl

reads_blocks : Maps.list_blocked full_machine full false 7 ≡ (ok blocks, 7)
unfolding Maps.list_blocked Maps.show_blocks Maps.list_entry Maps.show_block Maps.first_num
    Maps.expiry Map.items Map.batch Map.batch_from Map.batch_on Keys.unpack_cidr unpack
    unpack_fields of_le inet_ntoa show ◌>>=◌
reads_blocks = refl

cmd_lists-Ranks_example :
    ((shown : List Allowed) × (cmd_allow full_machine full AllowArgs.list 7
        ≡ (ok (lines allow_entry shown), 7))
      × Ranks (λ e. e.hits) allowed shown)
    × ((shown : List Blocked) × (cmd_block full_machine full (BlockArgs.list false) 7
          ≡ (ok (lines block_entry shown), 7))
        × Ranks (λ e. e.hits) blocks shown)
    × ((shown rest : Sources) × (cmd_top full_machine full (pos 10) 7 ≡ (ok shown, 7))
        × (length shown ≡ shown_of (pos 10) (length states))
        × Ranks (λ s. s.1.packets) states (shown ++ rest))
cmd_lists-Ranks_example =
    cmd_lists-Ranks full_machine full false (pos 10) allowed blocks states 7 7 7 7 7 7 reads_allowed
      reads_blocks reads_states
