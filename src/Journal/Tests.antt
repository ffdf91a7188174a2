-- ===== src/Journal/Tests.antt =====
-- internal/journal at a concrete journal and host.
use red_mpudp.Prelude.{◌↔◌, ℕ, ◌≡◌, refl, inl, true, List, [], ◌∷◌, ◌++◌, map, none, some, All}
use red_mpudp.Prelude.Int.{pos}
use red_mpudp.Prelude.Bytes.{Str, codes, str_eq, any_byte, all_bytes}
use red_mpudp.Journal.Schema.{
  Journal, validate, check_owner, first_error, instance_id_re, dev_name_re, nft_name_re,
  sysctl_name_re, sysctl_name_from,
}
use red_mpudp.Journal.Recover.{
  Host, Call, delete_route_table, delete_nft_table, get_sysctl, set_sysctl, recover,
  recover_checked, refusal, phase1, phase2, phase2b, after_phase1, after_tables, after_nft, halt,
  route_step, rule_step, resolver_step, sysctl_step, sysctl_answer, sysctl_decide, table_step,
  nft_step, for_each, attempt, settle,
}
use red_mpudp.Journal.Schema.Valid.{IsWellFormed, validate_iff}
use red_mpudp.Journal.Recover.Gate.{IsGated, Means, recover-IsGated, recover-Means}
use red_mpudp.Journal.Recover.Trace.{is_sysctl, failures}
use red_mpudp.Journal.Recover.Order.{callees, undo_calls, recover_complete}

-- A host that knows one sysctl, and does all that it is asked; its errors are numbers.
abbrev host : Host Str ℕ
host = record {
  get_sysctl = λ key w. (w, inl w);
  set_sysctl = λ key v w. (v, none);
  delete_route = λ r w. (w, none);
  delete_rule = λ r w. (w, none);
  delete_route_table = λ id w. (w, none);
  delete_nft_table = λ t w. (w, none);
  restore_resolver = λ r w. (w, none);
}

-- The same with no way to restore a resolver.
abbrev host_without_resolver : Host Str ℕ
host_without_resolver = record host { restore_resolver = λ r w. (w, some 1) }

abbrev journal : Journal
journal = record {
  schema = pos 1;
  role = codes "client";
  instance_id = codes "instance-1";
  created_at = 0;
  routes =
      record { table = 200; dst = codes "default"; dev = codes "red0"; via = []; priority = 0 }
      ∷ [];
  rules = record { family = codes "ip"; priority = 10000; fwmark = 1; table = 200 } ∷ [];
  tables = 200 ∷ [];
  nft_tables = record { family = codes "inet"; name = codes "red_mpudp" } ∷ [];
  sysctls =
      record { name = codes "net.ipv4.ip_forward"; prior = codes "0"; installed = codes "1" } ∷ [];
  resolver = some (record { manager = codes "resolv-conf"; link = []; prior = [] });
}

journal_is_valid : validate journal ≡ none
unfolding validate first_error instance_id_re dev_name_re nft_name_re sysctl_name_re
    sysctl_name_from str_eq any_byte all_bytes
journal_is_valid = refl

no_error : (recover host journal (codes "client") [] (codes "1")).1 ≡ none
unfolding recover recover_checked refusal phase1 phase2 phase2b after_phase1 after_tables after_nft
    route_step rule_step resolver_step sysctl_step sysctl_answer sysctl_decide table_step nft_step
    for_each attempt settle validate check_owner first_error instance_id_re dev_name_re nft_name_re
    sysctl_name_re sysctl_name_from str_eq any_byte all_bytes
no_error = refl

recover_complete_example :
    ((sys : List Call) × (callees (recover host journal (codes "client") [] (codes "1")).0.calls
        ≡ undo_calls host journal (codes "1")
          ++ (sys
              ++ (map delete_route_table journal.tables
                  ++ map delete_nft_table journal.nft_tables)))
      × All (λ c. is_sysctl c ≡ true) sys)
    × (failures (recover host journal (codes "client") [] (codes "1")).0.calls ≡ [])
recover_complete_example = recover_complete host journal (codes "1") (codes "client") [] no_error

recover-IsGated_example :
    IsGated (recover host_without_resolver journal (codes "client") [] (codes "1")).0.calls
recover-IsGated_example =
    recover-IsGated host_without_resolver journal (codes "1") (codes "client") []

-- A resolver that cannot be restored: the route and the rule are removed, the sysctl is restored, and the
-- kill switch stays.
halted_calls :
    callees (recover host_without_resolver journal (codes "client") [] (codes "1")).0.calls
    ≡ undo_calls host_without_resolver journal (codes "1")
      ++ (get_sysctl (codes "net.ipv4.ip_forward") ∷ set_sysctl (codes "net.ipv4.ip_forward") ∷ [])
unfolding recover recover_checked refusal phase1 phase2 phase2b after_phase1 after_tables after_nft
    route_step rule_step resolver_step sysctl_step sysctl_answer sysctl_decide table_step nft_step
    for_each attempt settle validate check_owner first_error instance_id_re dev_name_re nft_name_re
    sysctl_name_re sysctl_name_from str_eq any_byte all_bytes halt
halted_calls = refl

recover-Means_example :
    let (p, e) = recover host_without_resolver journal (codes "client") [] (codes "1") in
    Means host_without_resolver journal (codes "1") e p
recover-Means_example = recover-Means host_without_resolver journal (codes "1") (codes "client") []

validate_iff_example : (validate journal ≡ none) ↔ IsWellFormed journal
validate_iff_example = validate_iff journal
