-- ===== src/Journal/Linux/Tests.antt =====
-- internal/journal/host_linux.go at a concrete host.
use red_mpudp.Prelude.{
  ℕ, ◌≡◌, ◌⊎◌, refl, sym, ◌∙◌, ap, inl, List, [], ◌∷◌, none, some, All, replicate, length,
  length-replicate, ltb, true,
}
use red_mpudp.Prelude.Int.{pos}
use red_mpudp.Prelude.Bytes.{codes, contains, has_prefix}
use red_mpudp.Journal.Schema.{Journal, JournalError, RouteRecord}
use red_mpudp.Journal.Recover.{Failure, Entry, refused, halted, recover, start}
use red_mpudp.Journal.Recover.Trace.{not_nft}
use red_mpudp.Journal.Linux.{
  Tools, LinuxHost, LinuxError, linux_host, idempotent_delete, contains_any,
}
use red_mpudp.Journal.Linux.Argv.{route_args-injective}
use red_mpudp.Journal.Linux.Resolver.{recover-linux_host}

-- Commands that find nothing to delete; numbers in unary.
abbrev tools : Tools ℕ ℕ
tools = record {
  execute = λ name args w. (w, (codes "RTNETLINK answers: no such process", some 2));
  read_file = λ path w. (w, inl (codes "1"));
  write_file = λ path text w. (w, none);
  lower = λ s. s;
  trim_space = λ s. s;
  decimal = λ n. replicate n 49;
  hex = λ n. replicate n 49;
}

abbrev host : LinuxHost
host = record { ip_path = []; sysctl_path = []; nft_path = [] }

abbrev route : RouteRecord
route = record { table = 200; dst = codes "default"; dev = codes "red0"; via = []; priority = 5 }

-- What is gone already counts as deleted.
deleted :
    idempotent_delete tools (0, (codes "RTNETLINK answers: no such process", some 2)) ≡ (0, none)
unfolding idempotent_delete contains contains_any has_prefix
deleted = refl

decimal_injective : (m n : ℕ) → tools.decimal m ≡ tools.decimal n → m ≡ n
decimal_injective m n h =
    sym (length-replicate {A = ℕ} m 49) ∙ ap length h ∙ length-replicate {A = ℕ} n 49

route_args-injective_example :
    (route.table ≡ route.table)
    × (route.dst ≡ route.dst)
    × (route.dev ≡ route.dev)
    × (route.via ≡ route.via)
    × (route.priority ≡ route.priority)
route_args-injective_example = route_args-injective tools decimal_injective route route refl

abbrev journal : Journal
journal = record {
  schema = pos 1;
  role = codes "client";
  instance_id = codes "instance-1";
  created_at = 0;
  routes = route ∷ [];
  rules = [];
  tables = 200 ∷ [];
  nft_tables = record { family = codes "inet"; name = codes "red_mpudp" } ∷ [];
  sysctls = [];
  resolver = some (record { manager = codes "resolv-conf"; link = []; prior = [] });
}

recover-linux_host_example :
    let (p, e) = recover (linux_host tools host) journal (codes "client") [] 0 in
    ((x : JournalError) × (e ≡ some (refused x)) × (p ≡ start (linux_host tools host) 0))
    ⊎ ((fs : List (Failure (LinuxError ℕ))) × (e ≡ some (halted fs))
        × All (λ (c : Entry (LinuxError ℕ)). not_nft c.0 ≡ true) p.calls
        × (p.report.kill_switch_retained ≡ ltb 0 (length journal.nft_tables)))
recover-linux_host_example =
    recover-linux_host tools host journal (codes "client") [] 0
      (record { manager = codes "resolv-conf"; link = []; prior = [] }) refl
